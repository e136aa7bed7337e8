-- ===== src/Tests/Choices.antt =====
-- Runs of the snapshot mode of core/src/vm_choice.c and of OP_FENCE of core/src/vm_exec.c.
use libsnobol.Compiler.Correct.Cuts.{resumptions, push_all, resumptions-op_fence}
use libsnobol.Vm.Arena.{arena_reset}
use libsnobol.Base.{arith, ◌≡◌, refl, false, [], ◌∷◌, some}
use libsnobol.Tests.Machine.{machine}
use libsnobol.Vm.Arena.Stack.{arena_create-IsValid, arena_alloc-IsValid, arena_reset-IsValid}
use libsnobol.Vm.Choices.{push_choice, pop_choice}
use libsnobol.Vm.Handlers.Control.{op_fence}
use libsnobol.Vm.Snapshot.{IsCopied, pop_choice-push_choice_snapshot}
use libsnobol.Vm.State.{Vm}

-- a machine in the snapshot mode with one capture in use
abbrev snapping : Vm
snapping = record (machine [] (97 ∷ 98 ∷ [])) { use_compact_choice = false; max_cap_used = 1 }

-- the cursor has moved since the push
abbrev moved_on : Vm
moved_on = record (push_choice 7 0 snapping) { pos = 2 }

pop_choice-push_choice_snapshot_example :
    (w : Vm) × (pop_choice moved_on ≡ some w) × IsCopied 7 0 snapping moved_on w
unfolding push_choice
pop_choice-push_choice_snapshot_example =
    pop_choice-push_choice_snapshot 7 0 snapping moved_on refl refl
      (arena_alloc-IsValid _ _ _ arena_create-IsValid) refl

-- two choices behind FENCE, on a state that has one before it
abbrev fenced : Vm
fenced = record moved_on { arena = arena_reset moved_on.arena; choices_top = 0 }

abbrev behind_fence : Vm
behind_fence = push_all ((5, 1) ∷ (9, 2) ∷ []) fenced

resumptions-op_fence_example : resumptions 3 behind_fence ≡ some ((5, 1) ∷ (9, 2) ∷ [])
unfolding op_fence push_choice
resumptions-op_fence_example =
    resumptions-op_fence moved_on behind_fence fenced ((5, 1) ∷ (9, 2) ∷ []) 3 refl
      (arena_alloc-IsValid _ _ _ (arena_alloc-IsValid _ _ _ (arena_reset-IsValid _))) refl
      (omega arith)
