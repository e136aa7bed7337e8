-- ===== src/Compiler/Safety/Operands.antt =====
-- The emitters of core/src/compiler_codegen.c that call no other emitter of a node.
use libsnobol.Base.{
  ℕ, zero, suc, ◌+◌, ◌≡◌, refl, sym, Bool, true, false, List, [], ◌∷◌, ◌++◌, Option, none, some,
  length, if◌then◌else◌, Option-cases, inl, inr, ltb, leb,
}
use mathlib.Core.List.{append-nil}
use libsnobol.Compiler.Ast.{AnchorType, anchor_start, anchor_end}
use libsnobol.Compiler.CharClass.{CcEntry, add_or_get_charclass, add_entry, place, find_entry}
use libsnobol.Compiler.Code.{cb_emit_u8, cb_emit_u16, cb_emit_u32, cb_emit_bytes}
use libsnobol.Compiler.Emit.{
  Compiler, op, u8, u16, u32, raw, emit_lit_bytes, emit_class, emit_any, emit_literal,
  emit_lit_case_insensitive, emit_assign, emit_eval, emit_count, emit_anchor, emit_emit, emit_bal,
  emit_table_op, slice,
}
use libsnobol.Compiler.Folding.{FoldTables}
use libsnobol.Compiler.Safety.Extends.{IsValid, Extends, Extends-trans, Sound-grow}
use libsnobol.Vm.Bytes.{Bytes, utf8_peek_next}
use libsnobol.Vm.Exec.{Opcode}

-- `c'` continues `c` and is valid
abbrev pub Sounds : Compiler → Compiler → Type 0
Sounds c c' = Extends c c' × IsValid c'

pub op-Sounds : {c c' : Compiler} (o : Opcode) → Sounds c c' → Sounds c (op o c')
unfolding op cb_emit_u8
op-Sounds o h = Sound-grow _ h

pub u8-Sounds : {c c' : Compiler} (v : ℕ) → Sounds c c' → Sounds c (u8 v c')
unfolding u8 cb_emit_u8
u8-Sounds v h = Sound-grow _ h

pub u16-Sounds : {c c' : Compiler} (v : ℕ) → Sounds c c' → Sounds c (u16 v c')
unfolding u16 cb_emit_u16
u16-Sounds v h = Sound-grow _ h

pub u32-Sounds : {c c' : Compiler} (v : ℕ) → Sounds c c' → Sounds c (u32 v c')
unfolding u32 cb_emit_u32
u32-Sounds v h = Sound-grow _ h

pub raw-Sounds : {c c' : Compiler} (b : Bytes) → Sounds c c' → Sounds c (raw b c')
unfolding raw cb_emit_bytes
raw-Sounds b h = Sound-grow _ h

pub Sounds-if :
    (b : Bool) {c x y : Compiler} → Sounds c x → Sounds c y → Sounds c (if b then x else y)
Sounds-if true p q = p
Sounds-if false p q = q

lit_raw-Sounds : {c c' : Compiler} (s : Bytes) → Sounds c c' → Sounds c (emit_lit_bytes s c')
unfolding emit_lit_bytes
lit_raw-Sounds {c} {c'} s h =
    raw-Sounds s
      (u32-Sounds (length s) (u32-Sounds (length c'.buf + 1 + 4 + 4) (op-Sounds Opcode.lit h)))

add_entry_kept :
    (ne : CcEntry) (es : List CcEntry) → (more : List CcEntry) × ((add_entry ne es).1 ≡ es ++ more)
unfolding add_entry place
add_entry_kept ne es = elim (Option-cases (find_entry ne 1 es)) [
  | inl new ↦ (ne ∷ [], rw new refl)
  | inr (id, old) ↦ ([], rw old (sym (append-nil es)))
]

add_or_get_kept :
    (t : FoldTables) (ci : Bool) (s : Bytes) (es : List CcEntry)
    → (more : List CcEntry) × ((add_or_get_charclass t ci s es).1 ≡ es ++ more)
unfolding add_or_get_charclass
add_or_get_kept t ci s es = add_entry_kept _ es

with_classes :
    {c c' : Compiler} (s : Bytes)
    → Sounds c c'
    → Sounds c
        (record c' { classes = (add_or_get_charclass c'.fold c'.case_insensitive s c'.classes).1 })
with_classes {c} {c'} s (f, v) =
    let (more, e) = add_or_get_kept c'.fold c'.case_insensitive s c'.classes in
    (
      Extends-trans f
          (record { code = []; emitted = sym (append-nil c'.buf); more = more; kept = e }),
      record { loops = v.loops; targets = v.targets },
    )

pub class-Sounds :
    {c c' : Compiler} (o : Opcode) (s : Bytes) → Sounds c c' → Sounds c (emit_class o s c')
unfolding emit_class
class-Sounds {c} {c'} o s h =
    u16-Sounds (add_or_get_charclass c'.fold c'.case_insensitive s c'.classes).0
      (op-Sounds o (with_classes s h))

pub any-Sounds : {c c' : Compiler} (s : Bytes) → Sounds c c' → Sounds c (emit_any s c')
unfolding emit_any
any-Sounds s h =
    Sounds-if (ltb 0 (length s)) (class-Sounds Opcode.any s h)
      (u16-Sounds 0 (op-Sounds Opcode.any h))

folded-Sounds :
    (fuel : ℕ) (s : Bytes) (i : ℕ) {c c' : Compiler}
    → Sounds c c'
    → Sounds c (emit_lit_case_insensitive fuel s i c')
unfolding emit_lit_case_insensitive
folded-Sounds zero s i h = h
folded-Sounds (suc fuel) s i {c} {c'} h = Sounds-if (leb (length s) i) h (
    decoded (utf8_peek_next s i) (folded-Sounds fuel s (i + 1) (lit_raw-Sounds (slice 1 s i) h))
      (λ n. folded-Sounds fuel s (i + n) (class-Sounds Opcode.any (slice n s i) h)))
  where
    decoded :
        (o : Option (ℕ × ℕ)) {x : Compiler} {y : ℕ → Compiler}
        → Sounds c x
        → ((n : ℕ) → Sounds c (y n))
        → Sounds c (elim o [ none ↦ x | some (cp, n) ↦ y n ])
    decoded none p q = p
    decoded (some (cp, n)) p q = q n

pub literal-Sounds : {c c' : Compiler} (s : Bytes) → Sounds c c' → Sounds c (emit_literal s c')
unfolding emit_literal
literal-Sounds {c} {c'} s h =
    Sounds-if c'.case_insensitive (folded-Sounds (length s) s 0 h) (lit_raw-Sounds s h)

pub assign-Sounds : {c c' : Compiler} (v r : ℕ) → Sounds c c' → Sounds c (emit_assign v r c')
unfolding emit_assign
assign-Sounds v r h = u8-Sounds r (u16-Sounds v (op-Sounds Opcode.assign h))

pub eval-Sounds : {c c' : Compiler} (f r : ℕ) → Sounds c c' → Sounds c (emit_eval f r c')
unfolding emit_eval
eval-Sounds f r h = u8-Sounds r (u16-Sounds f (op-Sounds Opcode.eval h))

pub count-Sounds :
    {c c' : Compiler} (o : Opcode) (n : ℕ) → Sounds c c' → Sounds c (emit_count o n c')
unfolding emit_count
count-Sounds o n h = u32-Sounds n (op-Sounds o h)

pub anchor-Sounds : {c c' : Compiler} (t : AnchorType) → Sounds c c' → Sounds c (emit_anchor t c')
unfolding emit_anchor
anchor-Sounds anchor_start h = u8-Sounds 0 (op-Sounds Opcode.anchor h)
anchor-Sounds anchor_end h = u8-Sounds 1 (op-Sounds Opcode.anchor h)

pub emit-Sounds :
    {c c' : Compiler} (text : Option Bytes) (reg : ℕ)
    → Sounds c c'
    → Sounds c (emit_emit text reg c')
unfolding emit_emit
emit-Sounds {c} {c'} (some text) reg h = raw-Sounds text (
    u32-Sounds (length text)
      (u32-Sounds (length c'.buf + 1 + 4 + 4) (op-Sounds Opcode.emit_literal h)))
emit-Sounds none reg h =
    Sounds-if (ltb reg 0x80000000) (u8-Sounds reg (op-Sounds Opcode.emit_capture h)) h

pub bal-Sounds : {c c' : Compiler} (x y : ℕ) → Sounds c c' → Sounds c (emit_bal x y c')
unfolding emit_bal
bal-Sounds x y h = u32-Sounds y (u32-Sounds x (op-Sounds Opcode.bal h))

pub table_op-Sounds :
    {c c' : Compiler} (o : Opcode) (k d : ℕ) (table : Bytes)
    → Sounds c c'
    → Sounds c (emit_table_op o k d table c')
unfolding emit_table_op
table_op-Sounds o k d table h =
    raw-Sounds table
      (u8-Sounds (length table) (u8-Sounds d (u8-Sounds k (u16-Sounds 0xFFFF (op-Sounds o h)))))
