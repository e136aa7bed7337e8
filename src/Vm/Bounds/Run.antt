-- ===== src/Vm/Bounds/Run.antt =====
-- The repetition handlers of core/src/vm_exec.c, and the dispatch loop of `vm_run`, keep the cursor
-- within the subject.
use libsnobol.Base.{ℕ, ◌+◌, ◌-◌, ◌&&◌, Option, none, some, arith, ltb, leb, ◌==◌, length}
use libsnobol.Vm.Bounds.Steps.{
  IsInSubject, EndsInSubject, moved, push_choice-IsInSubject, ends-backtrack, ends-running,
  ends-outside, ends-if, branch-IsInSubject,
}
use libsnobol.Vm.Bounds.Walks.{scan_bytes-le, le-scan_bytes}
use libsnobol.Vm.Bytes.{at, read_u8, read_u16, read_u32}
use libsnobol.Vm.Classes.{Bitmap, Ranges, get_ranges, ranges_to_full_bitmap}
use libsnobol.Vm.Cursor.{scan_bytes}
use libsnobol.Vm.Exec.{
  Opcode, accept, fail, jmp, split, lit, any, notany, span, break_, cap_start, cap_end, assign, len,
  anchor, repeat_init, repeat_step, label, goto, goto_f, breakx, bal, fence, rem, rpos, rtab, pos_,
  tab, abort, succeed, nop, decode, dispatch, step,
}
use libsnobol.Vm.Bounds.Registers.{
  counter-IsInSubject, ends-op_fail, ends-op_jmp, ends-op_split, ends-op_cap_start, ends-op_cap_end,
  ends-op_assign, ends-op_label, ends-op_goto, ends-op_goto_f, ends-op_fence, ends-op_abort,
  ends-op_rem,
}
use libsnobol.Vm.Bounds.Handlers.{
  ends-op_lit, ends-op_any, ends-op_notany, ends-op_span, ends-op_break, ends-op_breakx,
  ends-op_bal, ends-op_len, ends-op_anchor, ends-op_rpos, ends-op_rtab, ends-op_pos, ends-op_tab,
}
use libsnobol.Vm.Handlers.Outcome.{Outcome, matched}
use libsnobol.Vm.Handlers.Repeat.{
  op_repeat_init, op_repeat_step, reads_past, init_loop, greedy_run, greedy_ranges, greedy_step,
  plain_step, mark_greedy, note_pos, add_count, unbounded, greedy_class, span_opcode,
}
use libsnobol.Vm.State.{Vm, max_loops}
use libsnobol.Vm.Trail.{trail_counter_inc}

ends-op_repeat_init : (vm : Vm) → IsInSubject vm → EndsInSubject (op_repeat_init vm)
unfolding op_repeat_init init_loop
ends-op_repeat_init vm v =
    let (id, ip₁) = read_u8 vm.bc vm.ip in
    let (least, ip₂) = read_u32 vm.bc ip₁ in
    let (most, ip₃) = read_u32 vm.bc ip₂ in
    let (skip, ip₄) = read_u32 vm.bc ip₃ in
    ends-running _ (
      branch-IsInSubject (ltb id max_loops) _ _
        (branch-IsInSubject (least == 0) _ _
          (push_choice-IsInSubject skip vm.pos (init_loop id least most (record vm { ip = ip₄ }))
            v.cursor v)
          v)
        v)

greedy_run-IsInSubject :
    (id : ℕ) (map : Bitmap) (vm : Vm) → IsInSubject vm → IsInSubject (greedy_run id map vm)
unfolding greedy_run add_count
greedy_run-IsInSubject id map vm v =
    let e = scan_bytes (length vm.s) map vm.s vm.pos in
    let lo = le-scan_bytes (length vm.s) map vm.s vm.pos in
    let hi = scan_bytes-le (length vm.s) map vm.s vm.pos v.cursor in
    counter-IsInSubject id _ _
      (add_count id (1 + (e - vm.pos)) (record vm { pos = vm.pos + (e - vm.pos) }))
      (moved (vm.pos + (e - vm.pos)) v (omega (arith, lo, hi)))

greedy_ranges-IsInSubject :
    (id : ℕ) (r : Option Ranges) (vm : Vm) → IsInSubject vm → IsInSubject (greedy_ranges id r vm)
unfolding greedy_ranges greedy_class
greedy_ranges-IsInSubject id none vm v = v
greedy_ranges-IsInSubject id (some r) vm v =
    branch-IsInSubject (ltb 0 r.count) _ _ (classes (ranges_to_full_bitmap vm.bc r)) v
  where
    classes : (m : Option Bitmap) → IsInSubject (greedy_class id m vm)
    classes none = v
    classes (some map) = greedy_run-IsInSubject id map vm v

greedy_step-IsInSubject :
    (id target : ℕ) (vm : Vm) → IsInSubject vm → IsInSubject (greedy_step id target vm)
unfolding greedy_step note_pos
greedy_step-IsInSubject id target vm v =
    let (set_id, _) = read_u16 vm.bc (target + 1) in
    let w = greedy_ranges id (get_ranges vm.bc set_id) vm in
    let h = greedy_ranges-IsInSubject id (get_ranges vm.bc set_id) vm v in
    branch-IsInSubject (ltb (w.regs.loops.loop_last_pos id) w.pos) _ _
      (push_choice-IsInSubject (vm.ip - 6) (w.pos - 1) w (omega (arith, h.cursor)) h) h

plain_step-IsInSubject :
    (id target : ℕ) (vm : Vm) → IsInSubject vm → IsInSubject (plain_step id target vm)
unfolding plain_step note_pos
plain_step-IsInSubject id target vm v =
    let l = vm.regs.loops in
    let w = trail_counter_inc id (l.counters id) (l.loop_last_pos id) (add_count id 1 vm) in
    let h : IsInSubject w = counter-IsInSubject id _ _ (add_count id 1 vm) v in
    let count = w.regs.loops.counters id in
    let again = push_choice-IsInSubject w.ip w.pos w h.cursor h in
    branch-IsInSubject (ltb count (l.loop_min id)) _ _ h (
      branch-IsInSubject (l.loop_max id == unbounded) _ _
        (branch-IsInSubject (w.pos == l.loop_last_pos id) _ _ h
          (branch-IsInSubject (ltb (length w.s + 1) count) _ _ h again))
        (branch-IsInSubject (ltb count (l.loop_max id)) _ _ again h))

ends-op_repeat_step : (vm : Vm) → IsInSubject vm → EndsInSubject (op_repeat_step vm)
unfolding op_repeat_step mark_greedy
ends-op_repeat_step vm v =
    let (id, ip) = read_u8 vm.bc vm.ip in
    let (target, ip') = read_u32 vm.bc ip in
    let u = record vm { ip = ip' } in
    let w = mark_greedy id target u in
    let h : IsInSubject w =
      branch-IsInSubject (u.regs.loops.loop_max id == unbounded && at u.bc target == span_opcode) _
        _ v v in
    ends-if (ltb id max_loops && reads_past id target u w) _ _ (ends-outside _ u v) (
      ends-running _ (
        branch-IsInSubject (ltb id max_loops) _ _
          (branch-IsInSubject (w.regs.loops.loop_span_greedy id) _ _
            (greedy_step-IsInSubject id target w h) (plain_step-IsInSubject id target w h))
          v))

ends-matched : (vm : Vm) → IsInSubject vm → EndsInSubject (matched vm)
unfolding EndsInSubject
ends-matched vm v = v

ends-dispatch : (op : Opcode) (vm : Vm) → IsInSubject vm → EndsInSubject (dispatch op vm)
unfolding dispatch
ends-dispatch accept vm v = ends-matched vm v
ends-dispatch fail vm v = ends-op_fail vm v
ends-dispatch jmp vm v = ends-op_jmp vm v
ends-dispatch split vm v = ends-op_split vm v
ends-dispatch lit vm v = ends-op_lit vm v
ends-dispatch any vm v = ends-op_any vm v
ends-dispatch notany vm v = ends-op_notany vm v
ends-dispatch span vm v = ends-op_span vm v
ends-dispatch break_ vm v = ends-op_break vm v
ends-dispatch cap_start vm v = ends-op_cap_start vm v
ends-dispatch cap_end vm v = ends-op_cap_end vm v
ends-dispatch assign vm v = ends-op_assign vm v
ends-dispatch len vm v = ends-op_len vm v
ends-dispatch anchor vm v = ends-op_anchor vm v
ends-dispatch repeat_init vm v = ends-op_repeat_init vm v
ends-dispatch repeat_step vm v = ends-op_repeat_step vm v
ends-dispatch label vm v = ends-op_label vm v
ends-dispatch goto vm v = ends-op_goto vm v
ends-dispatch goto_f vm v = ends-op_goto_f vm v
ends-dispatch breakx vm v = ends-op_breakx vm v
ends-dispatch bal vm v = ends-op_bal vm v
ends-dispatch fence vm v = ends-op_fence vm v
ends-dispatch rem vm v = ends-op_rem vm v
ends-dispatch rpos vm v = ends-op_rpos vm v
ends-dispatch rtab vm v = ends-op_rtab vm v
ends-dispatch pos_ vm v = ends-op_pos vm v
ends-dispatch tab vm v = ends-op_tab vm v
ends-dispatch abort vm v = ends-op_abort vm v
ends-dispatch succeed vm v = ends-matched vm v
ends-dispatch nop vm v = ends-running vm v
ends-dispatch _ vm v = ends-outside _ vm v

pub ends-step : (vm : Vm) → IsInSubject vm → EndsInSubject (step vm)
unfolding step
ends-step vm v =
    ends-if (leb (length vm.bc) vm.ip) _ _ (ends-backtrack vm v)
      (ends-dispatch (decode (at vm.bc vm.ip)) (record vm { ip = vm.ip + 1 }) v)
