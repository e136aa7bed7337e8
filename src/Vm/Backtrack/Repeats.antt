-- ===== src/Vm/Backtrack/Repeats.antt =====
-- OP_REPEAT_INIT and OP_REPEAT_STEP of core/src/vm_exec.c keep the invariant of the thread: they log no
-- change of a capture, and make none.
use libsnobol.Base.{
  ℕ, ◌+◌, ◌-◌, Bool, true, false, ◌&&◌, Option, none, some, ltb, ◌==◌, length, if◌then◌else◌,
}
use libsnobol.Vm.Backtrack.Steps.{
  Anchor, Held, Keeps, running-Keeps, running_if-Keeps, push-Keeps, branch-Keeps, outside-Keeps,
}
use libsnobol.Vm.Backtrack.Writes.{trail_counter_inc-Thread}
use libsnobol.Vm.Bytes.{read_u8, read_u16, read_u32}
use libsnobol.Vm.Choices.{push_choice}
use libsnobol.Vm.Classes.{Ranges, Bitmap, get_ranges}
use libsnobol.Vm.Cursor.{scan_bytes}
use libsnobol.Vm.Handlers.Outcome.{running}
use libsnobol.Vm.Handlers.Repeat.{
  op_repeat_init, op_repeat_step, reads_past, init_loop, greedy_run, greedy_class, greedy_ranges,
  greedy_step, plain_step, mark_greedy, note_pos, add_count, unbounded,
}
use libsnobol.Vm.State.{Vm, max_loops}
use libsnobol.Vm.Trail.{trail_counter_inc}

module _ (k : Anchor) where
  greedy_run-Held : (id : ℕ) (map : Bitmap) (vm : Vm) → Held k vm → Held k (greedy_run id map vm)
  unfolding greedy_run add_count
  greedy_run-Held id map vm t =
      let l = vm.regs.loops in
      let extra = scan_bytes (length vm.s) map vm.s vm.pos - vm.pos in
      trail_counter_inc-Thread id (l.counters id) (l.loop_last_pos id)
        (add_count id (1 + extra) (record vm { pos = vm.pos + extra })) t

  greedy_class-Held :
      (id : ℕ) (o : Option Bitmap) (vm : Vm) → Held k vm → Held k (greedy_class id o vm)
  unfolding greedy_class
  greedy_class-Held id none vm t = t
  greedy_class-Held id (some map) vm t = greedy_run-Held id map vm t

  branch-Held : (b : Bool) (x y : Vm) → Held k x → Held k y → Held k (if b then x else y)
  branch-Held true x y p q = p
  branch-Held false x y p q = q

  greedy_ranges-Held :
      (id : ℕ) (o : Option Ranges) (vm : Vm) → Held k vm → Held k (greedy_ranges id o vm)
  unfolding greedy_ranges
  greedy_ranges-Held id none vm t = t
  greedy_ranges-Held id (some r) vm t =
      branch-Held (ltb 0 r.count) _ vm (greedy_class-Held id _ vm t) t

  mark_greedy-Held : (id target : ℕ) (vm : Vm) → Held k vm → Held k (mark_greedy id target vm)
  unfolding mark_greedy
  mark_greedy-Held id target vm t = branch-Held _ _ vm t t

  noted-Keeps : (id : ℕ) (vm : Vm) → Keeps k (running vm) → Keeps k (running (note_pos id vm))
  unfolding note_pos Keeps
  noted-Keeps id vm f w = f (record { newer = w.newer; stack = w.stack; short = w.short })

  jumped-Keeps :
      (target : ℕ) (vm : Vm) → Keeps k (running vm) → Keeps k (running (record vm { ip = target }))
  unfolding Keeps
  jumped-Keeps target vm f w = f (record { newer = w.newer; stack = w.stack; short = w.short })

  greedy_step-Keeps :
      (id target : ℕ) (vm : Vm) → Held k vm → Keeps k (running (greedy_step id target vm))
  unfolding greedy_step
  greedy_step-Keeps id target vm t =
      let (set_id, _) = read_u16 vm.bc (target + 1) in
      let v = greedy_ranges id (get_ranges vm.bc set_id) vm in
      let held = greedy_ranges-Held id (get_ranges vm.bc set_id) vm t in
      noted-Keeps id _ (
        running_if-Keeps k (ltb (v.regs.loops.loop_last_pos id) v.pos) _ v (push-Keeps k _ _ v held)
          (running-Keeps k v held))

  plain_step-Keeps :
      (id target : ℕ) (vm : Vm) → Held k vm → Keeps k (running (plain_step id target vm))
  unfolding plain_step add_count
  plain_step-Keeps id target vm t =
      let l = vm.regs.loops in
      let v = trail_counter_inc id (l.counters id) (l.loop_last_pos id) (add_count id 1 vm) in
      let held =
        trail_counter_inc-Thread id (l.counters id) (l.loop_last_pos id) (add_count id 1 vm) t in
      let count = v.regs.loops.counters id in
      let back : Keeps k (running (record (note_pos id v) { ip = target })) =
        jumped-Keeps target _ (noted-Keeps id v (running-Keeps k v held)) in
      let again : Keeps k
          (running (record (note_pos id (push_choice v.ip v.pos v)) { ip = target })) =
        jumped-Keeps target _ (noted-Keeps id _ (push-Keeps k v.ip v.pos v held)) in
      let out = running-Keeps k v held in
      running_if-Keeps k (ltb count (l.loop_min id)) _ _ back (
        running_if-Keeps k (l.loop_max id == unbounded) _ _
          (running_if-Keeps k (v.pos == l.loop_last_pos id) _ _ out
            (running_if-Keeps k (ltb (length v.s + 1) count) _ _ out again))
          (running_if-Keeps k (ltb count (l.loop_max id)) _ _ again out))

  pub op_repeat_step-Keeps : (vm : Vm) → Held k vm → Keeps k (op_repeat_step vm)
  unfolding op_repeat_step
  op_repeat_step-Keeps vm t =
      let (id, ip) = read_u8 vm.bc vm.ip in
      let (target, ip') = read_u32 vm.bc ip in
      let v = record vm { ip = ip' } in
      let w = mark_greedy id target v in
      let held = mark_greedy-Held id target v t in
      branch-Keeps k (ltb id max_loops && reads_past id target v w) _ _ (outside-Keeps k _ _) (
        running_if-Keeps k (ltb id max_loops) _ _
          (running_if-Keeps k (w.regs.loops.loop_span_greedy id) _ _
            (greedy_step-Keeps id target w held) (plain_step-Keeps id target w held))
          (running-Keeps k v t))

  pub op_repeat_init-Keeps : (vm : Vm) → Held k vm → Keeps k (op_repeat_init vm)
  unfolding op_repeat_init init_loop
  op_repeat_init-Keeps vm t =
      let (id, ip₁) = read_u8 vm.bc vm.ip in
      let (least, ip₂) = read_u32 vm.bc ip₁ in
      let (most, ip₃) = read_u32 vm.bc ip₂ in
      let (skip, ip₄) = read_u32 vm.bc ip₃ in
      let v = record vm { ip = ip₄ } in
      let ready = init_loop id least most v in
      running_if-Keeps k (ltb id max_loops) _ _
        (running_if-Keeps k (least == 0) _ _ (push-Keeps k skip vm.pos ready t)
          (running-Keeps k ready t))
        (running-Keeps k v t)
