-- ===== src/Compiler/Labels.antt =====
-- The label table of a compilation: `LabelEntry`, `find_label_c`, `get_or_create_label_c` and
-- `emit_label_table` of core/src/compiler_codegen.c. Allocations are taken to succeed, for fewer than
-- 32768 labels.
use libsnobol.Base.{
  ℕ, zero, suc, ◌&&◌, Bool, true, false, not, List, [], ◌∷◌, ◌++◌, Option, none, some, ◌==◌,
  if◌then◌else◌, length,
}
use libsnobol.Compiler.Code.{cb_emit_u32}
use libsnobol.Vm.Bytes.{Bytes}

-- `LabelEntry`; its `id` is its index
pub record LabelEntry : Type 0 where
  pub name : Bytes
  pub offset : ℕ
  pub defined : Bool
  pub referenced : Bool

-- `strcmp(a, b) == 0`
unfoldable pub same_name : Bytes → Bytes → Bool
same_name [] [] = true
same_name [] (_ ∷ _) = false
same_name (_ ∷ _) [] = false
same_name (x ∷ xs) (y ∷ ys) = (x == y) && same_name xs ys

-- `find_label_c` from index `i` on; `none` is its -1
unfoldable pub find_label_from : ℕ → Bytes → List LabelEntry → Option ℕ
unfolding same_name
find_label_from i name [] = none
find_label_from i name (e ∷ es) =
    if same_name e.name name then some i else find_label_from (suc i) name es

unfoldable pub find_label : Bytes → List LabelEntry → Option ℕ
unfolding find_label_from
find_label name es = find_label_from 0 name es

unfoldable pub found_label : Bytes → List LabelEntry → Option ℕ → ℕ × List LabelEntry
found_label name es (some i) = (i, es)
found_label name es none =
    (length es, es ++ record { name = name; offset = 0; defined = false; referenced = false } ∷ [])

-- `get_or_create_label_c`
unfoldable pub get_or_create_label : Bytes → List LabelEntry → ℕ × List LabelEntry
unfolding found_label find_label
get_or_create_label name es = found_label name es (find_label name es)

-- `label_table_c[i].defined`
unfoldable pub is_defined : List LabelEntry → ℕ → Bool
is_defined [] i = false
is_defined (e ∷ es) zero = e.defined
is_defined (e ∷ es) (suc i) = is_defined es i

-- the writes to entry `i` at AST_LABEL and at AST_GOTO
unfoldable pub define_label : List LabelEntry → ℕ → ℕ → List LabelEntry
define_label [] i offset = []
define_label (e ∷ es) zero offset = record e { offset = offset; defined = true } ∷ es
define_label (e ∷ es) (suc i) offset = e ∷ define_label es i offset

unfoldable pub refer_label : List LabelEntry → ℕ → List LabelEntry
refer_label [] i = []
refer_label (e ∷ es) zero = record e { referenced = true } ∷ es
refer_label (e ∷ es) (suc i) = e ∷ refer_label es i

-- the check for labels that are used and not defined
unfoldable pub has_unknown_label : List LabelEntry → Bool
has_unknown_label [] = false
has_unknown_label (e ∷ es) = if e.referenced && not e.defined then true else has_unknown_label es

-- the loop of `emit_label_table`
unfoldable pub emit_label_offsets : List LabelEntry → Bytes → Bytes
unfolding cb_emit_u32
emit_label_offsets [] buf = buf
emit_label_offsets (e ∷ es) buf =
    emit_label_offsets es (cb_emit_u32 (if e.defined then e.offset else 0) buf)

-- `emit_label_table`, with `SNOBOL_LABEL_TABLE_MAGIC`
unfoldable pub emit_label_table : List LabelEntry → Bytes → Bytes
unfolding emit_label_offsets
emit_label_table es buf =
    cb_emit_u32 0x534E424C (cb_emit_u32 (length es) (emit_label_offsets es buf))
