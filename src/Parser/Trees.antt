-- ===== src/Parser/Trees.antt =====
-- The trees that core/src/parser.c builds: no null pointer in place of a node, and numbers in range.
use libsnobol.Base.{ℕ, ◌^◌, ◌≤◌, ◌<◌, ◌≡◌, List, [], ◌∷◌, Option, none, some}
use libsnobol.Compiler.Ast.{
  Node, Parts, absent, concat, alt, repetition, arbno, capture, assign, eval, dynamic_eval, emit,
  label, goto, table_access, table_update, reg_ref, nil, cons, minus_one,
}
use libsnobol.Parser.Calls.{Level, alternatives, concatenation}
use libsnobol.Vm.Bytes.{Bytes}
use libsnobol.Vm.State.{max_vars}

-- the register of an emitted capture, or the word of -1 for a text
unfoldable pub IsEmitted : Option Bytes → ℕ → Type 0
IsEmitted none reg = reg ≤ max_vars
IsEmitted (some text) reg = reg ≡ minus_one

unfoldable pub IsNamed : Option Bytes → Type 0
IsNamed none = ⊥
IsNamed (some name) = Unit {0}

-- Captures, register keys and the source of an assignment are below `MAX_VARS`, an explicit register
-- that is assigned to or emitted is at most `MAX_VARS`, the bounds of a repetition are ordered and not
-- negative.
unfoldable mutual
  unfolding IsEmitted IsNamed

  pub IsBuilt : Node → Type 0
  IsBuilt absent = ⊥
  IsBuilt (concat parts) = AreBuilt parts
  IsBuilt (alt left right) = IsBuilt left × IsBuilt right
  IsBuilt (repetition sub low high) = IsBuilt sub × (low ≤ high) × (high < 2 ^ 31)
  IsBuilt (arbno sub) = IsBuilt sub
  IsBuilt (capture reg sub) = (reg < max_vars) × IsBuilt sub
  IsBuilt (assign var reg) = (var ≤ max_vars) × (reg < max_vars)
  IsBuilt (eval fn reg) = ⊥
  IsBuilt (dynamic_eval expr) = IsBuilt expr
  IsBuilt (emit text reg) = IsEmitted text reg
  IsBuilt (label name target) = IsNamed name × IsBuilt target
  IsBuilt (goto name) = IsNamed name
  IsBuilt (table_access table key) = IsBuilt key
  IsBuilt (table_update table key value) = IsBuilt key × IsBuilt value
  IsBuilt (reg_ref reg) = reg < max_vars
  IsBuilt _ = Unit {0}

  pub AreBuilt : Parts → Type 0
  AreBuilt nil = Unit {0}
  AreBuilt (cons part parts) = IsBuilt part × AreBuilt parts

unfoldable pub AllBuilt : List Node → Type 0
unfolding IsBuilt
AllBuilt [] = Unit {0}
AllBuilt (node ∷ nodes) = IsBuilt node × AllBuilt nodes

-- the trees that a call is given
unfoldable pub StartsBuilt : Level → Type 0
unfolding IsBuilt AllBuilt
StartsBuilt (alternatives left) = IsBuilt left
StartsBuilt (concatenation parts) = AllBuilt parts
StartsBuilt _ = Unit {0}
