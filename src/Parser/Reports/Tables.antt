-- ===== src/Parser/Reports/Tables.antt =====
-- How `parse_table_or_assign` of core/src/parser.c ends, and the trees that it builds.
use libsnobol.Base.{ℕ, ◌≤◌, Option, none, some, leb, arith, Bool}
use libsnobol.Compiler.Ast.{Node}
use libsnobol.Lexer.{ident, lit, integer, anchor_end}
use libsnobol.Parser.{Read, is, value_of}
use libsnobol.Parser.Calls.{Grammar, repeated}
use libsnobol.Parser.Reports.{
  bind, after, skipping, either, return-Reports, refuse-Reports, peek-Reports, next_is-Reports,
  expect-Reports, or_lexical-Reports, Steady,
}
use libsnobol.Parser.Reports.Calls.{Builds}
use libsnobol.Parser.Reports.Targets.{IfSome, v_register-le, known_capture-Reports, IsRegister}
use libsnobol.Parser.Tables.{
  found_capture, assigned, assign_from, parse_assign, table_register, register_key, table_key,
  table_value, parse_table, parse_table_or_assign,
}
use libsnobol.Parser.Trees.{IsBuilt, StartsBuilt}
use libsnobol.Vm.Bytes.{Bytes}
use libsnobol.Vm.State.{max_vars}

found_capture-Reports :
    {b : Bool} {s : Bytes} {k : ℕ}
    → (name : Bytes) (o : Option ℕ) → IfSome IsRegister o
    → Steady b s k (found_capture name o) (λ r. r ≤ max_vars)
unfolding found_capture
found_capture-Reports name (some reg) h = return-Reports _ (omega arith)
found_capture-Reports name none h = refuse-Reports _

assigned-Reports :
    {b : Bool} {s : Bytes} {k : ℕ}
    → (name : Bytes) (o : Option ℕ) → IfSome (λ r. r ≤ max_vars) o
    → Steady b s k (assigned name o) (λ r. r ≤ max_vars)
unfolding assigned
assigned-Reports name (some reg) h = return-Reports _ h
assigned-Reports name none h =
    bind (known_capture-Reports name) (λ o k. found_capture-Reports name o k)

assign_from-Reports :
    {b : Bool} {s : Bytes} {k : ℕ}
    → (var : ℕ) (tok : Read) → var ≤ max_vars
    → Steady b s k (assign_from var tok) IsBuilt
unfolding assign_from IsBuilt
assign_from-Reports var tok h =
    either (is tok.type integer)
      (λ _.
        either (leb max_vars (value_of tok.token)) (λ _. refuse-Reports _)
          (λ small. skipping (λ _. return-Reports _ (h, ground (arith, small)))))
      (λ _. refuse-Reports _)

parse_assign-Reports :
    {b : Bool} {s : Bytes} {k : ℕ} → (name : Bytes) → Steady b s k (parse_assign name) IsBuilt
unfolding parse_assign
parse_assign-Reports name = skipping (λ _.
    bind (assigned-Reports name _ (v_register-le name))
      (λ var h. after peek-Reports (λ tok. assign_from-Reports var tok h)))

table_register-Reports :
    {b : Bool} {s : Bytes} {k : ℕ} → (o : Option ℕ) → Steady b s k (table_register o) IsBuilt
unfolding table_register IsBuilt
table_register-Reports none = refuse-Reports _
table_register-Reports (some reg) =
    either (leb max_vars reg) (λ _. refuse-Reports _)
      (λ small. skipping (λ _. return-Reports _ (ground (arith, small))))

register_key-Reports :
    {b : Bool} {s : Bytes} {k : ℕ} → (tok : Read) → Steady b s k (register_key tok) IsBuilt
unfolding register_key
register_key-Reports tok =
    either (is tok.type ident) (λ _. table_register-Reports _) (λ _. refuse-Reports _)

table_key-Reports :
    {b : Bool} {s : Bytes} {k : ℕ}
    → (name : Bytes) (tok : Read) → Steady b s k (table_key name tok) IsBuilt
unfolding table_key IsBuilt
table_key-Reports name tok = or_lexical-Reports _ (
    either (is tok.type lit) (λ _. skipping (λ _. return-Reports _ tt))
      (λ _.
        either (is tok.type anchor_end)
          (λ _. skipping (λ _. after peek-Reports register_key-Reports)) (λ _. refuse-Reports _)))

table_value-Reports :
    {b : Bool} {s : Bytes} {k : ℕ}
    → (rec : Grammar) (name : Bytes) (key : Node) → Builds b s k rec
    → IsBuilt key
    → Steady b s k (table_value rec name key) IsBuilt
unfolding table_value StartsBuilt IsBuilt
table_value-Reports rec name key builds h = skipping (λ _. after (next_is-Reports _) (λ b.
    either b (λ _. refuse-Reports _)
      (λ _. bind (builds repeated tt) (λ value k. return-Reports _ (h, k)))))

parse_table-Reports :
    {b : Bool} {s : Bytes} {k : ℕ}
    → (rec : Grammar) (name : Bytes) → Builds b s k rec
    → Steady b s k (parse_table rec name) IsBuilt
unfolding parse_table IsBuilt
parse_table-Reports rec name builds = skipping (λ _. after peek-Reports (λ tok.
    bind (table_key-Reports name tok) (λ key h. after (expect-Reports _) (λ _.
      after (next_is-Reports _) (λ b.
        either b (λ _. table_value-Reports rec name key builds h) (λ _. return-Reports _ h))))))

pub parse_table_or_assign-Reports :
    {b : Bool} {s : Bytes} {k : ℕ}
    → (rec : Grammar) (name : Bytes) → Builds b s k rec
    → Steady b s k (parse_table_or_assign rec name) IsBuilt
unfolding parse_table_or_assign
parse_table_or_assign-Reports rec name builds =
    after (next_is-Reports _)
      (λ b. either b (λ _. parse_assign-Reports name) (λ _. parse_table-Reports rec name builds))
