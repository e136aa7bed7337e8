-- ===== src/Vm/Bounds/Registers.antt =====
-- The control, register and repetition handlers of core/src/vm_exec.c keep the cursor within the
-- subject, and so does the dispatch loop.
use libsnobol.Base.{ℕ, sym, subst, true, ◌&&◌, Option, none, some, arith, ltb, length}
use libsnobol.Vm.Arena.{arena_reset}
use libsnobol.Vm.Arena.Stack.{items-arena_reset, arena_reset-IsValid}
use libsnobol.Vm.Bounds.Steps.{
  AllWithin, InSubject, IsInSubject, EndsInSubject, moved, push_choice-IsInSubject, ends-backtrack,
  ends-running, ends-if, branch-IsInSubject,
}
use libsnobol.Vm.Bytes.{read_u8, read_u16, read_u32}
use libsnobol.Vm.Handlers.Control.{
  op_fail, op_jmp, op_split, op_cap_start, op_cap_end, op_assign, op_label, op_goto, op_goto_f,
  op_fence, op_abort, goto_target, goto_f_target, label_offset, set_var, write_cap_start,
  write_cap_end, write_var,
}
use libsnobol.Vm.Handlers.Position.{op_rem}
use libsnobol.Vm.State.{Vm, max_caps, max_vars}
use libsnobol.Vm.Trail.{trail_cap_write, trail_var_write, trail_counter_inc}

pub counter-IsInSubject :
    (id c lp : ℕ) (vm : Vm) → IsInSubject vm → IsInSubject (trail_counter_inc id c lp vm)
unfolding trail_counter_inc
counter-IsInSubject id c lp vm v = branch-IsInSubject vm.use_compact_choice _ _ v v

cap-IsInSubject :
    (r sub a b : ℕ) (vm : Vm) → IsInSubject vm → IsInSubject (trail_cap_write r sub a b vm)
unfolding trail_cap_write
cap-IsInSubject r sub a b vm v = branch-IsInSubject vm.use_compact_choice _ _ v v

set_var-IsInSubject : (var r : ℕ) (vm : Vm) → IsInSubject vm → IsInSubject (set_var var r vm)
unfolding set_var write_var trail_var_write
set_var-IsInSubject var r vm v = branch-IsInSubject vm.use_compact_choice _ _ v v

pub ends-op_fail : (vm : Vm) → IsInSubject vm → EndsInSubject (op_fail vm)
unfolding op_fail
ends-op_fail vm v = ends-backtrack vm v

pub ends-op_jmp : (vm : Vm) → IsInSubject vm → EndsInSubject (op_jmp vm)
unfolding op_jmp
ends-op_jmp vm v = ends-running _ v

pub ends-op_split : (vm : Vm) → IsInSubject vm → EndsInSubject (op_split vm)
unfolding op_split
ends-op_split vm v =
    let (a, ip) = read_u32 vm.bc vm.ip in
    let (b, ip') = read_u32 vm.bc ip in
    let h = push_choice-IsInSubject b vm.pos (record vm { ip = ip' }) v.cursor v in ends-running _ h

pub ends-op_cap_start : (vm : Vm) → IsInSubject vm → EndsInSubject (op_cap_start vm)
unfolding op_cap_start write_cap_start
ends-op_cap_start vm v =
    let (r, ip) = read_u8 vm.bc vm.ip in
    ends-running _ (
      branch-IsInSubject (ltb r max_caps) _ _ (cap-IsInSubject r 0 _ _ (record vm { ip = ip }) v) v)

pub ends-op_cap_end : (vm : Vm) → IsInSubject vm → EndsInSubject (op_cap_end vm)
unfolding op_cap_end write_cap_end
ends-op_cap_end vm v =
    let (r, ip) = read_u8 vm.bc vm.ip in
    let h =
      cap-IsInSubject r 1 (vm.regs.caps.cap_start r) (vm.regs.caps.cap_end r)
        (record vm { ip = ip }) v in
    ends-running _ (
      branch-IsInSubject (ltb r max_caps) _ _
        (branch-IsInSubject (ltb r max_vars) _ _
          (set_var-IsInSubject r r
            (write_cap_end r (
              trail_cap_write r 1 (vm.regs.caps.cap_start r) (vm.regs.caps.cap_end r)
                (record vm { ip = ip })))
            h)
          h)
        v)

pub ends-op_assign : (vm : Vm) → IsInSubject vm → EndsInSubject (op_assign vm)
unfolding op_assign
ends-op_assign vm v =
    let (var, ip) = read_u16 vm.bc vm.ip in
    let (r, ip') = read_u8 vm.bc ip in
    ends-running _ (
      branch-IsInSubject (ltb var max_vars && ltb r max_caps) _ _
        (set_var-IsInSubject var r (record vm { ip = ip' }) v) v)

pub ends-op_label : (vm : Vm) → IsInSubject vm → EndsInSubject (op_label vm)
unfolding op_label
ends-op_label vm v = ends-running _ v

ends-goto_target : (t : Option ℕ) (vm : Vm) → IsInSubject vm → EndsInSubject (goto_target t vm)
unfolding goto_target
ends-goto_target none vm v = ends-backtrack (record vm { in_goto_fail = true }) v
ends-goto_target (some target) vm v = ends-running _ v

pub ends-op_goto : (vm : Vm) → IsInSubject vm → EndsInSubject (op_goto vm)
unfolding op_goto
ends-op_goto vm v =
    let (label_id, ip) = read_u16 vm.bc vm.ip in
    ends-goto_target (label_offset vm.label_offsets label_id) (record vm { ip = ip }) v

ends-goto_f_target : (t : Option ℕ) (vm : Vm) → IsInSubject vm → EndsInSubject (goto_f_target t vm)
unfolding goto_f_target
ends-goto_f_target none vm v = ends-backtrack vm v
ends-goto_f_target (some target) vm v = ends-running _ v

pub ends-op_goto_f : (vm : Vm) → IsInSubject vm → EndsInSubject (op_goto_f vm)
unfolding op_goto_f
ends-op_goto_f vm v =
    let (label_id, ip) = read_u16 vm.bc vm.ip in
    ends-if vm.in_goto_fail _ _
      (ends-goto_f_target (label_offset vm.label_offsets label_id) (record vm { ip = ip }) v)
      (ends-running _ v)

emptied : (vm : Vm) → IsInSubject vm → InSubject vm.s vm.pos (arena_reset vm.arena)
emptied vm v = record {
  cursor = v.cursor;
  valid = arena_reset-IsValid vm.arena;
  saved = subst (AllWithin (length vm.s)) (sym (items-arena_reset vm.arena)) tt;
}

pub ends-op_fence : (vm : Vm) → IsInSubject vm → EndsInSubject (op_fence vm)
unfolding op_fence
ends-op_fence vm v = ends-running _ (emptied vm v)

pub ends-op_abort : (vm : Vm) → IsInSubject vm → EndsInSubject (op_abort vm)
unfolding op_abort EndsInSubject
ends-op_abort vm v = emptied vm v

pub ends-op_rem : (vm : Vm) → IsInSubject vm → EndsInSubject (op_rem vm)
unfolding op_rem
ends-op_rem vm v = ends-running _ (moved _ v (omega arith))
