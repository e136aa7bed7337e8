-- ===== src/Vm/Backtrack/Control.antt =====
-- The control, capture and variable opcodes of core/src/vm_exec.c keep the invariant of the thread.
use libsnobol.Base.{
  ℕ, ◌∷◌, Option, none, some, arith, ltb, length, Bool-cases, inl, inr, ap, sym, ◌∙◌, length-append,
}
use libsnobol.Vm.Arena.Stack.{items-arena_reset}
use libsnobol.Vm.Backtrack.Thread.{push_choice-Thread}
use libsnobol.Vm.Backtrack.Writes.{write_cap_start-Thread, write_cap_end-Thread, set_var-Thread}
use libsnobol.Vm.Bytes.{read_u8, read_u16, read_u32}
use libsnobol.Vm.Choices.{push_choice}
use libsnobol.Vm.Handlers.Control.{
  op_split, op_cap_start, op_cap_end, op_assign, op_goto, op_goto_f, op_fence, goto_target,
  goto_f_target,
}
use libsnobol.Vm.State.{Vm, max_caps, max_vars}
use libsnobol.Vm.Backtrack.Steps.{
  Anchor, Held, Keeps, running-Keeps, running_if-Keeps, backtrack-Keeps, branch-Keeps, pushed-Keeps,
}

module _ (k : Anchor) where
  pub op_split-Keeps : (vm : Vm) → Held k vm → Keeps k (op_split vm)
  unfolding op_split push_choice
  op_split-Keeps vm t =
      let (_, ip) = read_u32 vm.bc vm.ip in
      let (b, ip') = read_u32 vm.bc ip in
      pushed-Keeps k _ (λ h. push_choice-Thread b vm.pos (record vm { ip = ip' }) h t)

  pub op_cap_start-Keeps : (vm : Vm) → Held k vm → Keeps k (op_cap_start vm)
  unfolding op_cap_start
  op_cap_start-Keeps vm t = elim (Bool-cases (ltb (read_u8 vm.bc vm.ip).0 max_caps)) [
    | inl h ↦ rw h (running-Keeps k _ (write_cap_start-Thread _ _ _ h t))
    | inr h ↦ rw h (running-Keeps k _ t)
  ]

  pub op_cap_end-Keeps : (vm : Vm) → Held k vm → Keeps k (op_cap_end vm)
  unfolding op_cap_end
  op_cap_end-Keeps vm t = elim (Bool-cases (ltb (read_u8 vm.bc vm.ip).0 max_caps)) [
    | inl h ↦
        let ended = write_cap_end-Thread _ _ _ h t in
        rw h (running-Keeps k _ (set_var-Thread _ _ _ h ended))
    | inr h ↦ rw h (running-Keeps k _ t)
  ]

  pub op_assign-Keeps : (vm : Vm) → Held k vm → Keeps k (op_assign vm)
  unfolding op_assign
  op_assign-Keeps vm t =
      let (var, ip) = read_u16 vm.bc vm.ip in
      let (r, ip') = read_u8 vm.bc ip in
      elim (Bool-cases (ltb var max_vars)) [
        | inl h ↦ rw h (
            running_if-Keeps k (ltb r max_caps) _ _
              (running-Keeps k _ (set_var-Thread var r (record vm { ip = ip' }) h t))
              (running-Keeps k _ t))
        | inr h ↦ rw h (running-Keeps k _ t)
      ]

  goto_target-Keeps : (o : Option ℕ) (vm : Vm) → Held k vm → Keeps k (goto_target o vm)
  unfolding goto_target
  goto_target-Keeps none vm t = backtrack-Keeps k _ t
  goto_target-Keeps (some target') vm t = running-Keeps k _ t

  goto_f_target-Keeps : (o : Option ℕ) (vm : Vm) → Held k vm → Keeps k (goto_f_target o vm)
  unfolding goto_f_target
  goto_f_target-Keeps none vm t = backtrack-Keeps k _ t
  goto_f_target-Keeps (some target') vm t = running-Keeps k _ t

  pub op_goto_f-Keeps : (vm : Vm) → Held k vm → Keeps k (op_goto_f vm)
  unfolding op_goto_f
  op_goto_f-Keeps vm t = branch-Keeps k _ _ _ (goto_f_target-Keeps _ _ t) (running-Keeps k _ t)

  pub op_fence-Keeps : (vm : Vm) → Held k vm → Keeps k (op_fence vm)
  unfolding op_fence Keeps
  op_fence-Keeps vm t w = absurd (
      omega (
        arith,
        ap length (sym (items-arena_reset vm.arena) ∙ w.stack),
        length-append w.newer (k.first ∷ k.keep),
      ))

  pub op_goto-Keeps : (vm : Vm) → Held k vm → Keeps k (op_goto vm)
  unfolding op_goto
  op_goto-Keeps vm t = goto_target-Keeps _ _ t
