-- ===== src/Compiler/Ast.antt =====
-- The syntax tree: `ast_node_t` of core/include/snobol/ast.h, and `ast_node_nullable` of
-- core/src/compiler_analysis.c. An `int32_t` or `int` field is kept as its two's complement word of
-- 32 bits, a C string as its bytes, and a null pointer to a node is the constructor `absent`.
use libsnobol.Base.{ℕ, Bool, true, false, Option, none, some, ◌==◌, ◌>>=◌, if◌then◌else◌, length}
use libsnobol.Vm.Bytes.{Bytes}

-- the word of the number -1
abbrev pub minus_one : ℕ
minus_one = 4294967295

-- `anchor_type_t`
pub data AnchorType : Type 0 where
  anchor_start anchor_end : AnchorType

-- `ast_node_t` by its `type`, and the arrays `parts`
mutual
  pub data Node : Type 0 where
    absent : Node
    literal : (text : Bytes) → Node
    concat : (parts : Parts) → Node
    alt : (left right : Node) → Node
    repetition : (sub : Node) (low high : ℕ) → Node
    span break_ any notany : (chars : Bytes) → Node
    arbno : (sub : Node) → Node
    capture : (reg : ℕ) (sub : Node) → Node
    assign : (var reg : ℕ) → Node
    len : (n : ℕ) → Node
    eval : (fn reg : ℕ) → Node
    dynamic_eval : (expr : Node) → Node
    anchor : (atype : AnchorType) → Node
    emit : (text : Option Bytes) (reg : ℕ) → Node
    label : (name : Option Bytes) (target : Node) → Node
    goto : (name : Option Bytes) → Node
    table_access : (table : Bytes) (key : Node) → Node
    table_update : (table : Bytes) (key value : Node) → Node
    breakx : (chars : Bytes) → Node
    bal : (open_cp close_cp : ℕ) → Node
    fence rem abort fail succeed : Node
    rpos rtab pos tab : (n : ℕ) → Node
    reg_ref : (reg : ℕ) → Node

  pub data Parts : Type 0 where
    nil : Parts
    cons : Node → Parts → Parts

-- `parts.count == 0`
unfoldable pub has_no_parts : Parts → Bool
has_no_parts nil = true
has_no_parts (cons _ _) = false

-- `ast_node_nullable` where EMIT is read through `cap.sub`: on the 64-bit ABI that word is the field
-- `emit.len`, so that a length other than 0 is followed as a pointer.
unfoldable pub emit_as_capture : Option Bytes → Option Bool
emit_as_capture none = some false
emit_as_capture (some text) = if length text == 0 then some false else none

-- `a || b`, the second only where the first is false
abbrev either : Option Bool → Option Bool → Option Bool
either a b = a >>= λ x. if x then some true else b

-- the early return of the loop over the parts
abbrev both : Option Bool → Option Bool → Option Bool
both a b = a >>= λ x. if x then b else some false

-- `ast_node_nullable`; `none` is a read through a pointer to no node
unfoldable mutual
  unfolding emit_as_capture has_no_parts

  pub ast_node_nullable : Node → Option Bool
  ast_node_nullable absent = some false
  ast_node_nullable (arbno sub) = some true
  ast_node_nullable (repetition sub low high) = some (low == 0)
  ast_node_nullable (alt left right) = either (ast_node_nullable left) (ast_node_nullable right)
  ast_node_nullable (concat parts) = both (all_parts_nullable parts) (some (has_no_parts parts))
  ast_node_nullable (capture reg sub) = ast_node_nullable sub
  ast_node_nullable (emit text reg) = emit_as_capture text
  ast_node_nullable (literal text) = some (length text == 0)
  ast_node_nullable succeed = some true
  ast_node_nullable fail = some true
  ast_node_nullable fence = some true
  ast_node_nullable rem = some true
  ast_node_nullable (breakx chars) = some true
  ast_node_nullable (bal open_cp close_cp) = some true
  ast_node_nullable _ = some false

  pub all_parts_nullable : Parts → Option Bool
  all_parts_nullable nil = some true
  all_parts_nullable (cons part parts) = both (ast_node_nullable part) (all_parts_nullable parts)
