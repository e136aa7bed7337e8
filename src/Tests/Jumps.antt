-- ===== src/Tests/Jumps.antt =====
-- Runs of OP_GOTO and OP_GOTO_F of core/src/vm_exec.c.
use libsnobol.Base.{◌%◌, ◌^◌, ◌≡◌, refl, true, false, [], ◌∷◌}
use libsnobol.Tests.Machine.{machine}
use libsnobol.Vm.Bytes.{read_u16}
use libsnobol.Vm.Choices.{push_choice}
use libsnobol.Vm.Exec.{register_label}
use libsnobol.Vm.Handlers.Control.{op_goto, op_goto_f}
use libsnobol.Vm.Handlers.Outcome.{running}
use libsnobol.Vm.Jumps.{op_goto-register_label}
use libsnobol.Vm.State.{Vm}

-- an instruction that names label 1, with an empty label table and with label 1 at 9
abbrev unlabelled : Vm
unlabelled = machine (0 ∷ 1 ∷ []) []

abbrev labelled : Vm
labelled = record unlabelled { label_offsets = register_label 1 9 [] }

op_goto-register_label_example :
    (op_goto labelled ≡ running (record labelled { ip = 9 % 2 ^ 16 }))
    × (labelled.in_goto_fail ≡ true
        → op_goto_f labelled ≡ running (record labelled { ip = 9 % 2 ^ 16; in_goto_fail = false }))
unfolding read_u16
op_goto-register_label_example = op_goto-register_label labelled 9 [] refl

-- GOTO 2, which is no label, and at 3 GOTO_F 1, with a choice that stands there
abbrev recovering : Vm
recovering = push_choice 3 1 (record (machine (23 ∷ 0 ∷ 2 ∷ 24 ∷ 0 ∷ 1 ∷ []) (97 ∷ [])) {
  label_offsets = register_label 1 9 [];
})
