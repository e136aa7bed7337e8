-- ===== src/Parser/Reports/Primary.antt =====
-- How the primaries of core/src/parser.c end, and the trees that they build.
use libsnobol.Compiler.Ast.{Node}
use libsnobol.Parser.Reports.Tokens.{Follows, peeking, branch, anyway, consuming, not_last}
use libsnobol.Lexer.Weight.{is_last}
use libsnobol.Base.{◌||◌, arith, Bool, false, ℕ, suc, ◌≡◌}
use libsnobol.Lexer.{
  TokenType, ident, integer, equals, lit, anchor_end, anchor_start, at_sign, lparen, lbracket,
  charclass, star, plus, question,
}
use libsnobol.Parser.{is, codes, type_number}
use libsnobol.Parser.Calls.{alternation, primary, Grammar, function_named}
use libsnobol.Parser.Primary.{
  bare, parse_function_call, group, end_anchor, named_capture, no_primary, parse_primary,
  parse_repetition,
}
use libsnobol.Parser.Reports.{
  Reports, bind, after, skipping, either, return-Reports, refuse-Reports, peek-Reports,
  next_is-Reports, expect-Reports, or_lexical-Reports, Steady,
}
use libsnobol.Parser.Reports.Calls.{Builds, call-Reports}
use libsnobol.Parser.Reports.Tables.{parse_table_or_assign-Reports}
use libsnobol.Parser.Reports.Targets.{next_register-Reports}
use libsnobol.Parser.Trees.{IsBuilt, StartsBuilt}
use libsnobol.Slots.{same}
use libsnobol.Vm.Bytes.{Bytes}

bare-Reports : {b : Bool} {s : Bytes} {k : ℕ} → (name : Bytes) → Steady b s k (bare name) IsBuilt
unfolding bare IsBuilt
bare-Reports name =
    either (same name (codes "ARB")) (λ _. return-Reports _ tt)
      (λ _.
        either (same name (codes "FENCE")) (λ _. return-Reports _ tt)
          (λ _.
            either (same name (codes "REM")) (λ _. return-Reports _ tt) (λ _. refuse-Reports _)))

parse_function_call-Reports :
    {b : Bool} {s : Bytes} {k : ℕ} {type : TokenType} (rec : Grammar) (name : Bytes)
    → is_last type ≡ false
    → Builds b s k rec
    → Follows b s (suc k) type (λ _. k) (parse_function_call rec name) IsBuilt
unfolding parse_function_call
parse_function_call-Reports rec name n builds = consuming n (λ _. after peek-Reports (λ next.
    either (is next.type equals || is next.type lbracket)
      (λ _. parse_table_or_assign-Reports rec name builds)
      (λ _.
        either (is next.type charclass) (λ _. refuse-Reports _)
          (λ _.
            either (is next.type lparen)
              (λ _. skipping (λ _. call-Reports rec (function_named name) builds))
              (λ _. bare-Reports name)))))

group-Reports :
    {b : Bool} {s : Bytes} {k : ℕ}
    → (rec : Grammar) → Builds b s k rec
    → Steady b s k (group rec) IsBuilt
unfolding group StartsBuilt
group-Reports rec builds =
    bind (builds alternation tt) (λ inner h. after (expect-Reports _) (λ _. return-Reports _ h))

end_anchor-Reports : {b : Bool} {s : Bytes} {k : ℕ} → Steady b s k end_anchor IsBuilt
unfolding end_anchor IsBuilt
end_anchor-Reports =
    after (next_is-Reports _) (λ b. either b (λ _. refuse-Reports _) (λ _. return-Reports _ tt))

named_capture-Reports :
    {b : Bool} {s : Bytes} {k : ℕ}
    → (rec : Grammar) → Builds b s k rec
    → Steady b s k (named_capture rec) IsBuilt
unfolding named_capture StartsBuilt IsBuilt
named_capture-Reports rec builds = after peek-Reports (λ tok.
    either (is tok.type ident)
      (λ _. skipping (λ _.
        bind (next_register-Reports _)
          (λ reg h. bind (builds primary tt) (λ sub k. return-Reports _ (h, k)))))
      (λ _. refuse-Reports _))

no_primary-Reports :
    {b : Bool} {s : Bytes} {k : ℕ} {j : Node → ℕ} (type : TokenType)
    → Reports b s k j (no_primary type) IsBuilt
unfolding no_primary
no_primary-Reports type =
    or_lexical-Reports type
      (either (is type integer) (λ _. refuse-Reports _) (λ _. refuse-Reports _))

-- A primary takes at least one token.
pub parse_primary-Reports :
    {b : Bool} {s : Bytes} {k : ℕ} (rec : Grammar)
    → Builds b s k rec
    → Reports b s (suc k) (λ _. k) (parse_primary rec) IsBuilt
unfolding parse_primary IsBuilt type_number
parse_primary-Reports rec builds = peeking (λ tok.
    branch (is tok.type lit)
      (λ h. consuming (not_last _ _ h (omega arith) (omega arith)) (λ _. return-Reports _ tt))
      (λ _.
        branch (is tok.type charclass)
          (λ h. consuming (not_last _ _ h (omega arith) (omega arith)) (λ _. return-Reports _ tt))
          (λ _.
            branch (is tok.type lparen)
              (λ h.
                consuming (not_last _ _ h (omega arith) (omega arith))
                  (λ _. group-Reports rec builds))
              (λ _.
                branch (is tok.type anchor_start)
                  (λ h.
                    consuming (not_last _ _ h (omega arith) (omega arith))
                      (λ _. return-Reports _ tt))
                  (λ _.
                    branch (is tok.type anchor_end)
                      (λ h.
                        consuming (not_last _ _ h (omega arith) (omega arith))
                          (λ _. end_anchor-Reports))
                      (λ _.
                        branch (is tok.type at_sign)
                          (λ h.
                            consuming (not_last _ _ h (omega arith) (omega arith))
                              (λ _. named_capture-Reports rec builds))
                          (λ _.
                            branch (is tok.type ident)
                              (λ h.
                                parse_function_call-Reports rec tok.chars
                                  (not_last _ _ h (omega arith) (omega arith)) builds)
                              (λ _. anyway (no_primary-Reports tok.type)))))))))

-- Neither does a repetition take less.
pub parse_repetition-Reports :
    {b : Bool} {s : Bytes} {k : ℕ} (rec : Grammar)
    → Reports b s (suc k) (λ _. k) (rec primary) IsBuilt
    → Reports b s (suc k) (λ _. k) (parse_repetition rec) IsBuilt
unfolding parse_repetition IsBuilt
parse_repetition-Reports rec strict = bind strict (λ node h. after peek-Reports (λ tok.
    either (is tok.type star) (λ _. skipping (λ _. return-Reports _ h))
      (λ _.
        either (is tok.type plus) (λ _. skipping (λ _. return-Reports _ (h, (h, tt))))
          (λ _.
            either (is tok.type question)
              (λ _. skipping (λ _. return-Reports _ (h, omega arith, omega arith)))
              (λ _. return-Reports _ h)))))
