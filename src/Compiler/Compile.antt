-- ===== src/Compiler/Compile.antt =====
-- The whole compilation, `compile_ast_to_bytecode_c` of core/src/compiler_codegen.c: the code, the
-- check of the labels, ACCEPT, the fusion pass, the class section, its offsets and the label table.
use libsnobol.Base.{ℕ, Bool, List, [], ◌∷◌, if◌then◌else◌, length, reverse}
use libsnobol.Compiler.Ast.{Node}
use libsnobol.Compiler.CharClass.{CpRanges, CcEntry}
use libsnobol.Compiler.Code.{Emission, done, refused, ◌>>=◌, cb_emit_u16, cb_emit_u32}
use libsnobol.Compiler.Emit.{Compiler, emit_node, op}
use libsnobol.Compiler.Folding.{FoldTables}
use libsnobol.Compiler.Fuse.{fuse_split_any}
use libsnobol.Compiler.Labels.{has_unknown_label, emit_label_table}
use libsnobol.Vm.Bytes.{Bytes}
use libsnobol.Vm.Exec.{Opcode}

emit_ranges : CpRanges → Bytes → Bytes
unfolding cb_emit_u32
emit_ranges [] buf = buf
emit_ranges ((a, b) ∷ rs) buf = emit_ranges rs (cb_emit_u32 b (cb_emit_u32 a buf))

-- the section of one class
emit_entry : CcEntry → Bytes → Bytes
unfolding cb_emit_u16 emit_ranges
emit_entry e buf =
    emit_ranges e.ranges
      (cb_emit_u16 (if e.case_insensitive then 1 else 0) (cb_emit_u16 (length e.ranges) buf))

-- the sections in the order given, with the offsets found, the last one first
emit_entries : List CcEntry → List ℕ → Bytes → List ℕ × Bytes
unfolding emit_entry
emit_entries [] offsets buf = (offsets, buf)
emit_entries (e ∷ es) offsets buf = emit_entries es (length buf ∷ offsets) (emit_entry e buf)

emit_offsets : List ℕ → Bytes → Bytes
unfolding cb_emit_u32
emit_offsets [] buf = buf
emit_offsets (o ∷ os) buf = emit_offsets os (cb_emit_u32 o buf)

-- the classes with the list reversed, then the offsets from the last found to the first, so that
-- they stand in the order of the ids
unfoldable pub emit_charclasses : List CcEntry → Bytes → Bytes
unfolding emit_entries emit_offsets cb_emit_u32
emit_charclasses es buf =
    let (offsets, buf') = emit_entries (reverse es) [] buf in
    cb_emit_u32 (length es) (emit_offsets offsets buf')

unfoldable pub start : FoldTables → Bool → Compiler
start t ci = record {
  buf = [];
  classes = [];
  next_loop_id = 0;
  labels = [];
  case_insensitive = ci;
  fold = t;
}

-- what follows `emit_node_c`
unfoldable pub finish : Compiler → Emission Bytes
unfolding op fuse_split_any emit_charclasses emit_label_table has_unknown_label
finish c =
    let (code, classes) = fuse_split_any ((op Opcode.accept c).buf, c.classes) in
    if has_unknown_label c.labels
    then refused
    else done (emit_label_table c.labels (emit_charclasses classes code))

unfoldable pub compile_ast_to_bytecode : FoldTables → Node → Bool → Emission Bytes
unfolding start finish emit_node
compile_ast_to_bytecode t ast ci = emit_node ast (start t ci) >>= finish
