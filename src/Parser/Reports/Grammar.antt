-- ===== src/Parser/Reports/Grammar.antt =====
-- How the grammar of core/src/parser.c ends: the parsing functions, and `snobol_parser_parse`.
use libsnobol.Parser.Reports.Tokens.{
  Follows, peeking, testing, branch, anyway, consuming, not_last, bind_ready, saving_ready,
}
use libsnobol.Lexer.Weight.{is_last}
use libsnobol.Base.{
  ℕ, suc, List, [], ◌∷◌, Option, none, some, Bool-cases, inl, inr, Bool, true, false, ◌≡◌, arith,
  if◌then◌else◌,
}
use libsnobol.Compiler.Ast.{Node, Parts, nil, cons}
use libsnobol.Lexer.{TokenType, eof, ident, anchor_end, at_sign, dot, pipe}
use libsnobol.Parser.{ParserError, Read, is, Message, type_number}
use libsnobol.Parser.Calls.{statement, alternation, alternatives, concatenation, repeated, Grammar}
use libsnobol.Parser.Grammar.{
  in_order, concatenated, register_names, after_dollar, dollar_names, is_naming, name_part,
  starts_primary, look_behind, next_part, parse_concatenation, parse_alternatives, parse_goto, seen,
  record_label, statement_label, labelled_statement, trailing_token, trailing_unless, trailing,
}
use libsnobol.Parser.Reports.{
  Settles, Reports, Steady, Anything, bind, after, skipping, either, return-Reports, refuse-Reports,
  peek-Reports, restore_lexer-Reports, next_is-Reports, expect-Reports, or_lexical-Reports, giving,
  widen, saving,
}
use libsnobol.Parser.Reports.Calls.{Builds}
use libsnobol.Parser.Reports.Targets.{parse_naming_target-Reports}
use libsnobol.Parser.Trees.{IsBuilt, AreBuilt, AllBuilt, IsNamed, StartsBuilt}
use libsnobol.Vm.Bytes.{Bytes}

in_order-AreBuilt :
    (nodes : List Node) (parts : Parts)
    → AllBuilt nodes
    → AreBuilt parts
    → AreBuilt (in_order nodes parts)
unfolding in_order AllBuilt IsBuilt
in_order-AreBuilt [] parts h k = k
in_order-AreBuilt (node ∷ nodes) parts h k = in_order-AreBuilt nodes (cons node parts) h.1 (h.0, k)

concatenated-Reports :
    {b : Bool} {s : Bytes} {k : ℕ}
    → (nodes : List Node) → AllBuilt nodes
    → Steady b s k (concatenated nodes) IsBuilt
unfolding concatenated AllBuilt IsBuilt
concatenated-Reports [] h = refuse-Reports _
concatenated-Reports (node ∷ []) h = return-Reports _ h.0
concatenated-Reports (node ∷ more ∷ nodes) h =
    return-Reports _ (in_order-AreBuilt (node ∷ more ∷ nodes) nil h tt)

register_names-Reports :
    {b : Bool} {s : Bytes} {k : ℕ} → (o : Option ℕ) → Steady b s k (register_names o) Anything
unfolding register_names
register_names-Reports (some reg) = return-Reports _ tt
register_names-Reports none = refuse-Reports _

after_dollar-Reports :
    {b : Bool} {s : Bytes} {k : ℕ} → (next : Read) → Steady b s k (after_dollar next) Anything
unfolding after_dollar
after_dollar-Reports next =
    either (is next.type at_sign) (λ _. return-Reports _ tt)
      (λ _. either (is next.type ident) (λ _. register_names-Reports _) (λ _. return-Reports _ tt))

-- the tokens left behind a naming operator that was taken, or was not there
abbrev after_naming : ℕ → Bool → ℕ
after_naming k naming = if naming then k else suc k

dollar_names-Follows :
    {b : Bool} {s : Bytes} {k : ℕ} {type : TokenType}
    → is_last type ≡ false
    → Follows b s (suc k) type (after_naming k) dollar_names Anything
unfolding dollar_names
dollar_names-Follows {k = k} n = saving_ready (λ c state saved. consuming n (λ _.
    after peek-Reports (λ next. after (after_dollar-Reports next) (λ naming.
      either naming (λ _. giving {j = after_naming k} true tt)
        (λ _.
          after (restore_lexer-Reports state saved) (λ _. giving {j = after_naming k} false tt))))))

is_naming-Follows :
    {b : Bool} {s : Bytes} {k : ℕ} (type : TokenType)
    → Follows b s (suc k) type (after_naming k) (is_naming type) Anything
unfolding is_naming type_number
is_naming-Follows {k = k} type =
    branch (is type dot)
      (λ h.
        consuming (not_last _ _ h (omega arith) (omega arith))
          (λ _. giving {j = after_naming k} true tt))
      (λ _.
        branch (is type anchor_end)
          (λ h. dollar_names-Follows (not_last _ _ h (omega arith) (omega arith)))
          (λ _. anyway (giving {j = after_naming k} false tt)))

name_part-Reports :
    {b : Bool} {s : Bytes} {k : ℕ}
    → (rec : Grammar) (node : Node) (nodes : List Node) → Builds b s k rec
    → AllBuilt (node ∷ nodes)
    → Steady b s k (name_part rec node nodes) IsBuilt
unfolding name_part StartsBuilt AllBuilt IsBuilt
name_part-Reports rec node nodes builds h =
    bind parse_naming_target-Reports (λ reg k. builds (concatenation _) ((k, h.0), h.1))

look_behind-Reports :
    {b : Bool} {s : Bytes} {k : ℕ} (type : TokenType) → Steady b s k (look_behind type) Anything
unfolding look_behind
look_behind-Reports type =
    either (is type ident)
      (λ _. saving (λ c state saved.
        skipping (λ _. after peek-Reports (λ next. restore_lexer-Reports state saved))))
      (λ _. return-Reports _ tt)

next_part-Reports :
    {b : Bool} {s : Bytes} {k : ℕ} (rec : Grammar) (parts : List Node) (type : TokenType)
    → Builds b s k rec
    → Reports b s (suc k) (λ _. k) (rec repeated) IsBuilt
    → AllBuilt parts
    → Steady b s (suc k) (next_part rec parts type) IsBuilt
unfolding next_part StartsBuilt AllBuilt
next_part-Reports rec parts type builds strict h = after (look_behind-Reports type) (λ _.
    either (starts_primary type)
      (λ _. bind strict (λ part g. widen (builds (concatenation (part ∷ parts)) (g, h))))
      (λ _. concatenated-Reports parts h))

after_operator-Reports :
    {b : Bool} {s : Bytes} {k : ℕ} (rec : Grammar) (node : Node) (nodes : List Node)
    (type : TokenType) (naming : Bool)
    → Builds b s k rec
    → Reports b s (suc k) (λ _. k) (rec repeated) IsBuilt
    → AllBuilt (node ∷ nodes)
    → Reports b s
        (after_naming k naming)
        (λ _. suc k)
        (if naming then name_part rec node nodes else next_part rec (node ∷ nodes) type)
        IsBuilt
after_operator-Reports rec node nodes type true builds strict h =
    widen (name_part-Reports rec node nodes builds h)
after_operator-Reports rec node nodes type false builds strict h =
    next_part-Reports rec (node ∷ nodes) type builds strict h

pub parse_concatenation-Reports :
    {b : Bool} {s : Bytes} {k : ℕ} (rec : Grammar) (parts : List Node)
    → Builds b s k rec
    → Reports b s (suc k) (λ _. k) (rec repeated) IsBuilt
    → AllBuilt parts
    → Steady b s (suc k) (parse_concatenation rec parts) IsBuilt
unfolding parse_concatenation
parse_concatenation-Reports rec [] builds strict h =
    after peek-Reports (λ tok. next_part-Reports rec [] tok.type builds strict h)
parse_concatenation-Reports rec (node ∷ nodes) builds strict h = peeking (λ tok.
    bind_ready (is_naming-Follows tok.type)
      (λ naming _. after_operator-Reports rec node nodes tok.type naming builds strict h))

pub parse_alternatives-Reports :
    {b : Bool} {s : Bytes} {k : ℕ} (rec : Grammar) (left : Node)
    → Builds b s k rec
    → IsBuilt left
    → Steady b s (suc k) (parse_alternatives rec left) IsBuilt
unfolding parse_alternatives StartsBuilt AllBuilt IsBuilt type_number
parse_alternatives-Reports rec left builds h = testing _ _ (λ type.
    branch (is type pipe)
      (λ e. consuming (not_last _ _ e (omega arith) (omega arith)) (λ _. widen (
        bind (builds (concatenation []) tt)
          (λ right g. builds (alternatives (Node.alt left right)) (h, g)))))
      (λ _. anyway (return-Reports _ h)))

parse_goto-Reports :
    {b : Bool} {s : Bytes} {k : ℕ}
    → (pattern : Node) → IsBuilt pattern
    → Steady b s k (parse_goto pattern) IsBuilt
unfolding parse_goto IsBuilt IsNamed
parse_goto-Reports pattern h = after (expect-Reports _) (λ _. after peek-Reports (λ tok.
    either (is tok.type ident)
      (λ _. skipping (λ _. after (expect-Reports _) (λ _. return-Reports _ (h, (tt, tt)))))
      (λ _. refuse-Reports _)))

record_label-Reports :
    {b : Bool} {s : Bytes} {k : ℕ} (name : Bytes) → Steady b s k (record_label name) Anything
unfolding record_label Settles
record_label-Reports name = record {
  ends = λ p calm t. elim (Bool-cases (seen name p.seen_labels)) [
    | inl twice ↦ rw twice ((refuse-Reports (Message.duplicate_label name)).ends p calm t)
    | inr once ↦ rw once (tt, record { no_failure = calm.no_failure; in_range = calm.in_range }, t)
  ];
}

-- the tokens left behind a label that was taken, or was not there
abbrev pub after_label : ℕ → Option Bytes → ℕ
after_label k label = elim label [ none ↦ suc k | some _ ↦ k ]

pub statement_label-Reports :
    {b : Bool} {s : Bytes} {k : ℕ} → Reports b s (suc k) (after_label k) statement_label Anything
unfolding statement_label type_number
statement_label-Reports {k = k} = peeking (λ tok.
    branch (is tok.type ident)
      (λ e. saving_ready (λ c state saved.
        consuming (not_last _ _ e (omega arith) (omega arith)) (λ _. after (next_is-Reports _) (λ b.
          either b (λ _. skipping (λ _. giving {j = after_label k} (some tok.chars) tt))
            (λ _.
              after (restore_lexer-Reports state saved)
                (λ _. giving {j = after_label k} none tt))))))
      (λ _. anyway (giving {j = after_label k} none tt)))

pub labelled_statement-Reports :
    {b : Bool} {s : Bytes} {k : ℕ} (rec : Grammar) (name : Option Bytes)
    → Builds b s k rec
    → Steady b s (suc k) (rec alternation) IsBuilt
    → Reports b s (after_label k name) (λ _. suc k) (labelled_statement rec name) IsBuilt
unfolding labelled_statement StartsBuilt IsBuilt IsNamed
labelled_statement-Reports rec (some name) builds whole = widen (
    after (record_label-Reports name)
      (λ _. bind (builds statement tt) (λ target h. return-Reports _ (tt, h))))
labelled_statement-Reports rec none builds whole = bind whole (λ pattern h.
    after (next_is-Reports _)
      (λ b. either b (λ _. skipping (λ _. parse_goto-Reports pattern h)) (λ _. return-Reports _ h)))

trailing_token-Reports :
    {b : Bool} {s : Bytes} {k : ℕ}
    → (type : TokenType) (ast : Node) → IsBuilt ast
    → Steady b s k (trailing_token type ast) IsBuilt
unfolding trailing_token
trailing_token-Reports type ast h =
    or_lexical-Reports type (either (is type eof) (λ _. return-Reports _ h) (λ _. refuse-Reports _))

trailing_unless-Reports :
    {b : Bool} {s : Bytes} {k : ℕ}
    → (failure : Option ParserError) (ast : Node) → IsBuilt ast
    → Steady b s k (trailing_unless failure ast) IsBuilt
unfolding trailing_unless
trailing_unless-Reports (some e) ast h = return-Reports _ h
trailing_unless-Reports none ast h =
    after peek-Reports (λ tok. trailing_token-Reports tok.type ast h)

pub trailing-Reports :
    {b : Bool} {s : Bytes} {k : ℕ}
    → (ast : Node) → IsBuilt ast
    → Steady b s k (trailing ast) IsBuilt
unfolding trailing
trailing-Reports ast h = record {
  ends = λ p calm t. (trailing_unless-Reports p.failure ast h).ends p calm t;
}
