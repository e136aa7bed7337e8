-- ===== src/Vm/Jumps.antt =====
-- OP_GOTO and OP_GOTO_F of core/src/vm_exec.c on the label table.
use libsnobol.Base.{ℕ, ◌%◌, ◌^◌, ◌≡◌, ap, ◌∙◌, true, false, List, some, if◌then◌else◌}
use libsnobol.Vm.Bytes.{read_u16}
use libsnobol.Vm.Exec.{register_label}
use libsnobol.Vm.Arena.Stack
use libsnobol.Vm.Growth.{label_offset-register_label}
use libsnobol.Vm.Handlers.Control.{op_goto, op_goto_f, goto_target, goto_f_target, label_offset}
use libsnobol.Vm.Handlers.Outcome.{running}
use libsnobol.Vm.State.{Vm}

-- the label that the instruction names, and the state behind the instruction
abbrev pub label_of : Vm → ℕ
label_of vm = (read_u16 vm.bc vm.ip).0

abbrev pub past_label : Vm → Vm
past_label vm = record vm { ip = (read_u16 vm.bc vm.ip).1 }

-- OP_GOTO and OP_GOTO_F
abbrev pub goto_opcode : ℕ
goto_opcode = 23

abbrev pub goto_f_opcode : ℕ
goto_f_opcode = 24

-- Where the label table comes from registering the named label, GOTO goes on at its offset modulo 2^16,
-- and so does GOTO_F after a failed GOTO, which it clears.
pub op_goto-register_label :
    (vm : Vm) (offset : ℕ) (offsets : List ℕ)
    → vm.label_offsets ≡ register_label (label_of vm) offset offsets
    → (op_goto vm ≡ running (record vm { ip = offset % 2 ^ 16 }))
      × (vm.in_goto_fail ≡ true
          → op_goto_f vm ≡ running (record vm { ip = offset % 2 ^ 16; in_goto_fail = false }))
unfolding op_goto op_goto_f goto_target goto_f_target
op_goto-register_label vm offset offsets e =
    let v = past_label vm in
    let there : label_offset vm.label_offsets (label_of vm) ≡ some (offset % 2 ^ 16) =
      ap (λ t. label_offset t (label_of vm)) e
      ∙ (label_offset-register_label (label_of vm) offset offsets).0 in
    (
      ap (λ o. goto_target o v) there,
      λ on.
          ap
            (λ b.
              if b
              then goto_f_target (label_offset vm.label_offsets (label_of vm)) v
              else running v)
            on
          ∙ ap (λ o. goto_f_target o v) there,
    )
