-- ===== src/Parser/Reports/Calls.antt =====
-- How the calls of the pattern functions of core/src/parser.c end, and the trees that they build.
use libsnobol.Base.{ℕ, ◌^◌, ◌≤◌, refl, Option, none, some, ltb, leb, arith, Bool}
use libsnobol.Compiler.Ast.{Node, minus_one}
use libsnobol.Lexer.{ident, lit, at_sign, rparen}
use libsnobol.Parser.{Read, is}
use libsnobol.Parser.Calls.{
  Level, alternation, repeated, Grammar, Function, span, break_, breakx, any, notany, len, pos, tab,
  rpos, rtab, eval, emit, arb, arbno, bal, fence, rem, repeat, abort, fail, succeed, closed,
  is_string, string_argument, string_call, any_call, integer_call, no_argument_call, one_pattern,
  arbno_call, delimiter, bal_delimiter, bal_closing, bal_second, bal_call, int32_order,
  repeat_bounds, repeat_max, repeat_min, repeat_call, parse_dynamic_eval, known_register,
  emit_register, emit_name, parse_emit, call,
}
use libsnobol.Parser.Reports.{
  Steady, Anything, IsWord, bind, after, skipping, either, return-Reports, refuse-Reports,
  peek-Reports, next_is-Reports, expect-Reports, parse_integer_arg-Reports,
}
use libsnobol.Parser.Reports.Targets.{IfSome, v_register-le, known_capture-Reports, IsRegister}
use libsnobol.Parser.Trees.{IsBuilt, IsEmitted, StartsBuilt}
use libsnobol.Vm.Bytes.{Bytes}
use libsnobol.Vm.State.{max_vars}

-- The calls of a grammar end so, and build trees.
abbrev pub Builds : Bool → Bytes → ℕ → Grammar → Type 0
Builds b s k rec = (level : Level) → StartsBuilt level → Steady b s k (rec level) IsBuilt

pub closed-Reports :
    {b : Bool} {s : Bytes} {k : ℕ}
    → (node : Node) → IsBuilt node
    → Steady b s k (closed node) IsBuilt
unfolding closed
closed-Reports node h = after (expect-Reports _) (λ _. return-Reports _ h)

string_argument-Reports :
    {b : Bool} {s : Bytes} {k : ℕ}
    → (function : Bytes) (make : Bytes → Node) (tok : Read)
    → ((chars : Bytes) → IsBuilt (make chars))
    → Steady b s k (string_argument function make tok) IsBuilt
unfolding string_argument
string_argument-Reports function make tok h =
    either (is_string tok.type) (λ _. skipping (λ _. closed-Reports _ (h tok.chars)))
      (λ _. refuse-Reports _)

string_call-Reports :
    {b : Bool} {s : Bytes} {k : ℕ}
    → (function : Bytes) (make : Bytes → Node) → ((chars : Bytes) → IsBuilt (make chars))
    → Steady b s k (string_call function make) IsBuilt
unfolding string_call
string_call-Reports function make h =
    after peek-Reports (λ tok. string_argument-Reports function make tok h)

any_call-Reports : {b : Bool} {s : Bytes} {k : ℕ} → Steady b s k any_call IsBuilt
unfolding any_call IsBuilt
any_call-Reports = after peek-Reports (λ tok.
    either (is tok.type rparen) (λ _. skipping (λ _. return-Reports _ tt))
      (λ _. string_argument-Reports _ _ tok (λ chars. tt)))

integer_call-Reports :
    {b : Bool} {s : Bytes} {k : ℕ}
    → (function : Bytes) (make : ℕ → Node) → ((n : ℕ) → IsBuilt (make n))
    → Steady b s k (integer_call function make) IsBuilt
unfolding integer_call
integer_call-Reports function make h =
    bind (parse_integer_arg-Reports function) (λ n _. closed-Reports (make n) (h n))

no_argument_call-Reports :
    {b : Bool} {s : Bytes} {k : ℕ}
    → (function : Bytes) (node : Node) → IsBuilt node
    → Steady b s k (no_argument_call function node) IsBuilt
unfolding no_argument_call
no_argument_call-Reports function node h =
    after (next_is-Reports _)
      (λ b. either b (λ _. skipping (λ _. return-Reports _ h)) (λ _. refuse-Reports _))

one_pattern-Reports :
    {b : Bool} {s : Bytes} {k : ℕ}
    → (sub : Node) → IsBuilt sub
    → Steady b s k (one_pattern sub) IsBuilt
unfolding one_pattern IsBuilt
one_pattern-Reports sub h =
    after (next_is-Reports _)
      (λ b. either b (λ _. refuse-Reports _) (λ _. closed-Reports (Node.arbno sub) h))

arbno_call-Reports :
    {b : Bool} {s : Bytes} {k : ℕ}
    → (rec : Grammar) → Builds b s k rec
    → Steady b s k (arbno_call rec) IsBuilt
unfolding arbno_call StartsBuilt
arbno_call-Reports rec builds =
    after (next_is-Reports _)
      (λ b. either b (λ _. refuse-Reports _) (λ _. bind (builds repeated tt) one_pattern-Reports))

delimiter-Reports :
    {b : Bool} {s : Bytes} {k : ℕ} → (o : Option (ℕ × ℕ)) → Steady b s k (delimiter o) Anything
unfolding delimiter
delimiter-Reports (some (cp, bytes)) = return-Reports _ tt
delimiter-Reports none = refuse-Reports _

bal_delimiter-Reports :
    {b : Bool} {s : Bytes} {k : ℕ} → (tok : Read) → Steady b s k (bal_delimiter tok) Anything
unfolding bal_delimiter
bal_delimiter-Reports tok =
    either (is tok.type lit) (λ _. skipping (λ _. delimiter-Reports _)) (λ _. refuse-Reports _)

bal_closing-Reports : {b : Bool} {s : Bytes} {k : ℕ} → Steady b s k bal_closing Anything
unfolding bal_closing
bal_closing-Reports = skipping (λ _.
    after peek-Reports
      (λ tok. either (is tok.type rparen) (λ _. refuse-Reports _) (λ _. bal_delimiter-Reports tok)))

bal_second-Reports :
    {b : Bool} {s : Bytes} {k : ℕ} → (open_cp : ℕ) → Steady b s k (bal_second open_cp) IsBuilt
unfolding bal_second IsBuilt
bal_second-Reports open_cp = after (next_is-Reports _) (λ b.
    after (either b (λ _. bal_closing-Reports) (λ _. return-Reports _ tt))
      (λ close_cp. closed-Reports (Node.bal open_cp close_cp) tt))

bal_call-Reports : {b : Bool} {s : Bytes} {k : ℕ} → Steady b s k bal_call IsBuilt
unfolding bal_call IsBuilt
bal_call-Reports = after peek-Reports (λ tok.
    either (is tok.type rparen) (λ _. skipping (λ _. return-Reports _ tt))
      (λ _. after (bal_delimiter-Reports tok) bal_second-Reports))

repeat_bounds-Reports :
    {b : Bool} {s : Bytes} {k : ℕ}
    → (sub : Node) (low high : ℕ) → IsBuilt sub
    → IsWord high
    → Steady b s k (repeat_bounds sub low high) IsBuilt
unfolding repeat_bounds IsBuilt
repeat_bounds-Reports sub low high h word =
    either (leb (2 ^ 31) low) (λ _. refuse-Reports _)
      (λ small.
        either (ltb (int32_order high) (int32_order low)) (λ _. refuse-Reports _)
          (λ ordered.
            return-Reports _
              (h, ground (arith, small, ordered, word), ground (arith, small, ordered, word))))

repeat_max-Reports :
    {b : Bool} {s : Bytes} {k : ℕ}
    → (sub : Node) (low : ℕ) → IsBuilt sub
    → Steady b s k (repeat_max sub low) IsBuilt
unfolding repeat_max
repeat_max-Reports sub low h = after (expect-Reports _) (λ _.
    bind (parse_integer_arg-Reports _)
      (λ high word. after (expect-Reports _) (λ _. repeat_bounds-Reports sub low high h word)))

repeat_min-Reports :
    {b : Bool} {s : Bytes} {k : ℕ}
    → (sub : Node) → IsBuilt sub
    → Steady b s k (repeat_min sub) IsBuilt
unfolding repeat_min
repeat_min-Reports sub h = after (expect-Reports _) (λ _.
    bind (parse_integer_arg-Reports _) (λ low _.
      after (next_is-Reports _)
        (λ b. either b (λ _. refuse-Reports _) (λ _. repeat_max-Reports sub low h))))

repeat_call-Reports :
    {b : Bool} {s : Bytes} {k : ℕ}
    → (rec : Grammar) → Builds b s k rec
    → Steady b s k (repeat_call rec) IsBuilt
unfolding repeat_call StartsBuilt
repeat_call-Reports rec builds =
    after (next_is-Reports _)
      (λ b. either b (λ _. refuse-Reports _) (λ _. bind (builds repeated tt) repeat_min-Reports))

parse_dynamic_eval-Reports :
    {b : Bool} {s : Bytes} {k : ℕ}
    → (rec : Grammar) → Builds b s k rec
    → Steady b s k (parse_dynamic_eval rec) IsBuilt
unfolding parse_dynamic_eval StartsBuilt IsBuilt
parse_dynamic_eval-Reports rec builds =
    bind (builds alternation tt) (λ expr h. closed-Reports (Node.dynamic_eval expr) h)

known_register-Reports :
    {b : Bool} {s : Bytes} {k : ℕ}
    → (name : Bytes) (o : Option ℕ) → IfSome IsRegister o
    → Steady b s k (known_register name o) (λ r. r ≤ max_vars)
unfolding known_register
known_register-Reports name (some reg) h = return-Reports _ (omega arith)
known_register-Reports name none h = refuse-Reports _

emit_register-Reports :
    {b : Bool} {s : Bytes} {k : ℕ}
    → (name : Bytes) (o : Option ℕ) → IfSome (λ r. r ≤ max_vars) o
    → Steady b s k (emit_register name o) (λ r. r ≤ max_vars)
unfolding emit_register
emit_register-Reports name (some reg) h = return-Reports _ h
emit_register-Reports name none h =
    bind (known_capture-Reports name) (λ o k. known_register-Reports name o k)

emit_name-Reports : {b : Bool} {s : Bytes} {k : ℕ} → Steady b s k emit_name IsBuilt
unfolding emit_name IsBuilt IsEmitted
emit_name-Reports = after peek-Reports (λ tok.
    either (is tok.type ident)
      (λ _.
        bind (emit_register-Reports tok.chars _ (v_register-le tok.chars))
          (λ reg h. skipping (λ _. closed-Reports (Node.emit none reg) h)))
      (λ _. refuse-Reports _))

parse_emit-Reports : {b : Bool} {s : Bytes} {k : ℕ} → Steady b s k parse_emit IsBuilt
unfolding parse_emit IsBuilt IsEmitted
parse_emit-Reports = after peek-Reports (λ tok.
    either (is tok.type lit)
      (λ _. skipping (λ _. closed-Reports (Node.emit (some tok.chars) minus_one) refl))
      (λ _.
        either (is tok.type at_sign) (λ _. skipping (λ _. emit_name-Reports))
          (λ _. refuse-Reports _)))

pub call-Reports :
    {b : Bool} {s : Bytes} {k : ℕ}
    → (rec : Grammar) (f : Option Function) → Builds b s k rec
    → Steady b s k (call rec f) IsBuilt
unfolding call IsBuilt
call-Reports rec none builds = refuse-Reports _
call-Reports rec (some span) builds = string_call-Reports _ _ (λ chars. tt)
call-Reports rec (some break_) builds = string_call-Reports _ _ (λ chars. tt)
call-Reports rec (some breakx) builds = string_call-Reports _ _ (λ chars. tt)
call-Reports rec (some any) builds = any_call-Reports
call-Reports rec (some notany) builds = string_call-Reports _ _ (λ chars. tt)
call-Reports rec (some len) builds = integer_call-Reports _ _ (λ n. tt)
call-Reports rec (some pos) builds = integer_call-Reports _ _ (λ n. tt)
call-Reports rec (some tab) builds = integer_call-Reports _ _ (λ n. tt)
call-Reports rec (some rpos) builds = integer_call-Reports _ _ (λ n. tt)
call-Reports rec (some rtab) builds = integer_call-Reports _ _ (λ n. tt)
call-Reports rec (some eval) builds = parse_dynamic_eval-Reports rec builds
call-Reports rec (some emit) builds = parse_emit-Reports
call-Reports rec (some arb) builds = closed-Reports _ tt
call-Reports rec (some arbno) builds = arbno_call-Reports rec builds
call-Reports rec (some bal) builds = bal_call-Reports
call-Reports rec (some fence) builds = no_argument_call-Reports _ _ tt
call-Reports rec (some rem) builds = no_argument_call-Reports _ _ tt
call-Reports rec (some repeat) builds = repeat_call-Reports rec builds
call-Reports rec (some abort) builds = closed-Reports _ tt
call-Reports rec (some fail) builds = closed-Reports _ tt
call-Reports rec (some succeed) builds = closed-Reports _ tt
