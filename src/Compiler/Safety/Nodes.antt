-- ===== src/Compiler/Safety/Nodes.antt =====
-- The emitters of core/src/compiler_codegen.c for labels and gotos.
use libsnobol.Base.{
  ℕ, zero, suc, ◌≤◌, List, [], ◌∷◌, ◌++◌, Option, none, some, arith, length, Option-cases, inl, inr,
}
use libsnobol.Compiler.Code.{refused, cb_emit_u8, cb_emit_u16}
use libsnobol.Compiler.Emit
use libsnobol.Compiler.Emit.{
  Compiler, Emitter, Emitters, emitters, emit_parts, emit_node, op, u8, u16, u32, patch,
}
use libsnobol.Compiler.Labels.{
  LabelEntry, define_label, refer_label, get_or_create_label, find_label, found_label,
}
use libsnobol.Compiler.Safety.Extends.{LabelsWithin, IsValid, Extends-refl, IsSound, Sound-if}
use libsnobol.Compiler.Safety.Operands.{Sounds, op-Sounds, u16-Sounds}
use libsnobol.Vm.Bytes.{Bytes}
use libsnobol.Vm.Exec.{Opcode}
use libsnobol.Vm.State.{max_loops}

pub started : (c : Compiler) → IsValid c → Sounds c c
started c v = (Extends-refl c, v)

LabelsWithin-append :
    (n : ℕ) (es fs : List LabelEntry)
    → LabelsWithin n es
    → LabelsWithin n fs
    → LabelsWithin n (es ++ fs)
LabelsWithin-append n [] fs w v = v
LabelsWithin-append n (e ∷ es) fs w v = (w.0, LabelsWithin-append n es fs w.1 v)

get_or_create-Within :
    (n : ℕ) (name : Bytes) (es : List LabelEntry)
    → LabelsWithin n es
    → LabelsWithin n (get_or_create_label name es).1
unfolding get_or_create_label found_label
get_or_create-Within n name es w = elim (Option-cases (find_label name es)) [
  | inl new ↦ rw new (LabelsWithin-append n es _ w ((λ d. absurd (cc)), tt))
  | inr (i, old) ↦ rw old w
]

define-Within :
    (n : ℕ) (es : List LabelEntry) (i offset : ℕ)
    → offset ≤ n
    → LabelsWithin n es
    → LabelsWithin n (define_label es i offset)
unfolding define_label
define-Within n [] i offset h w = tt
define-Within n (e ∷ es) zero offset h w = ((λ _. h), w.1)
define-Within n (e ∷ es) (suc i) offset h w = (w.0, define-Within n es i offset h w.1)

refer-Within :
    (n : ℕ) (es : List LabelEntry) (i : ℕ) → LabelsWithin n es → LabelsWithin n (refer_label es i)
unfolding refer_label
refer-Within n [] i w = tt
refer-Within n (e ∷ es) zero w = (w.0, w.1)
refer-Within n (e ∷ es) (suc i) w = (w.0, refer-Within n es i w.1)

pub with_labels :
    {c c' : Compiler} (ls : List LabelEntry)
    → LabelsWithin (length c'.buf) ls
    → Sounds c c'
    → Sounds c (record c' { labels = ls })
with_labels ls w (f, v) = (
  record { code = f.code; emitted = f.emitted; more = f.more; kept = f.kept },
  record { loops = v.loops; targets = w },
)

pub with_loop :
    {c c' : Compiler} (n : ℕ)
    → n ≤ max_loops
    → Sounds c c'
    → Sounds c (record c' { next_loop_id = n })
with_loop n h (f, v) = (
  record { code = f.code; emitted = f.emitted; more = f.more; kept = f.kept },
  record { loops = h; targets = v.targets },
)

label_at-Sounds :
    (name : Bytes) (i : ℕ) (ls : List LabelEntry) (c : Compiler)
    → IsValid c
    → LabelsWithin (length c.buf) ls
    → Sounds c (Emit.emit_label_at name (i, ls) c)
unfolding Emit.emit_label_at op u16 cb_emit_u8 cb_emit_u16
label_at-Sounds name i ls c v w =
    let marked = u16-Sounds i (op-Sounds Opcode.label (with_labels ls w (started c v))) in
    with_labels _ (define-Within _ ls i _ (omega arith) marked.1.targets) marked

pub label-IsSound : (name : Option Bytes) → IsSound (Emit.emit_label name)
unfolding Emit.emit_label
label-IsSound none c v = tt
label-IsSound (some name) c v = Sound-if (Emit.is_duplicate name c.labels) c refused _ tt (
    label_at-Sounds name (get_or_create_label name c.labels).0 (get_or_create_label name c.labels).1
      c v (get_or_create-Within (length c.buf) name c.labels v.targets))

pub goto-IsSound : (name : Option Bytes) → IsSound (Emit.emit_goto name)
unfolding Emit.emit_goto
goto-IsSound none c v = tt
goto-IsSound (some name) c v =
    let (i, ls) = get_or_create_label name c.labels in
    u16-Sounds (get_or_create_label name c.labels).0 (
      op-Sounds Opcode.goto (
        with_labels _
          (refer-Within _ _ _ (get_or_create-Within (length c.buf) name c.labels v.targets))
          (started c v)))
