-- ===== src/Vm/Handlers/Repeat.antt =====
-- OP_REPEAT_INIT and OP_REPEAT_STEP of core/src/vm_exec.c, with the greedy run over a span body.
use libsnobol.Base.{
  ℕ, ◌+◌, ◌-◌, ◌%◌, ◌^◌, Bool, true, ◌&&◌, ◌||◌, leb, Option, none, some, ltb, ◌==◌, if◌then◌else◌,
  length, update,
}
use libsnobol.Vm.Bytes.{at, read_u8, read_u16, read_u32}
use libsnobol.Vm.Choices.{push_choice}
use libsnobol.Vm.Classes.{Ranges, Bitmap, get_ranges, is_torn, ranges_to_full_bitmap}
use libsnobol.Vm.Cursor.{scan_bytes}
use libsnobol.Vm.Handlers.Outcome.{Outcome, running, outside, past_bytecode}
use libsnobol.Vm.State.{Loops, Vm, max_loops}
use libsnobol.Vm.Trail.{trail_counter_inc}

-- `(uint32_t)-1`, no upper bound
abbrev pub unbounded : ℕ
unbounded = 2 ^ 32 - 1

-- the opcode OP_SPAN
abbrev pub span_opcode : ℕ
span_opcode = 7

abbrev pub with_loops : Loops → Vm → Vm
with_loops l vm = record vm { regs = record vm.regs { loops = l } }

unfoldable pub init_loop : ℕ → ℕ → ℕ → Vm → Vm
init_loop id least most vm =
    let l = vm.regs.loops in
    record (with_loops
      (record l {
        counters = update l.counters id 0;
        loop_min = update l.loop_min id least;
        loop_max = update l.loop_max id most;
        loop_last_pos = update l.loop_last_pos id vm.pos;
      })
      vm) {
        max_counter_used = if ltb vm.max_counter_used (id + 1) then id + 1 else vm.max_counter_used;
      }

unfoldable pub op_repeat_init : Vm → Outcome
unfolding init_loop
op_repeat_init vm =
    let (id, ip₁) = read_u8 vm.bc vm.ip in
    let (least, ip₂) = read_u32 vm.bc ip₁ in
    let (most, ip₃) = read_u32 vm.bc ip₂ in
    let (skip, ip₄) = read_u32 vm.bc ip₃ in
    let v = record vm { ip = ip₄ } in
    let ready = init_loop id least most v in
    running
      (if ltb id max_loops then if least == 0 then push_choice skip vm.pos ready else ready else v)

-- `loop_last_pos[id] = pos`
unfoldable pub note_pos : ℕ → Vm → Vm
note_pos id vm =
    let l = vm.regs.loops in
    with_loops (record l { loop_last_pos = update l.loop_last_pos id vm.pos }) vm

-- `counters[id] += by`
unfoldable pub add_count : ℕ → ℕ → Vm → Vm
add_count id by vm =
    let l = vm.regs.loops in
    with_loops (record l { counters = update l.counters id ((l.counters id + by) % 2 ^ 32) }) vm

-- the run of class bytes is committed at once
unfoldable pub greedy_run : ℕ → Bitmap → Vm → Vm
greedy_run id map vm =
    let l = vm.regs.loops in
    let run_end = scan_bytes (length vm.s) map vm.s vm.pos in
    let extra = run_end - vm.pos in
    trail_counter_inc id (l.counters id) (l.loop_last_pos id)
      (add_count id (1 + extra) (record vm { pos = vm.pos + extra }))

unfoldable pub greedy_class : ℕ → Option Bitmap → Vm → Vm
unfolding greedy_run
greedy_class id none vm = vm
greedy_class id (some map) vm = greedy_run id map vm

unfoldable pub greedy_ranges : ℕ → Option Ranges → Vm → Vm
unfolding greedy_class
greedy_ranges id none vm = vm
greedy_ranges id (some r) vm =
    if ltb 0 r.count then greedy_class id (ranges_to_full_bitmap vm.bc r) vm else vm

-- the branch of OP_REPEAT_STEP for a span body; `vm.ip` is past the step instruction
unfoldable pub greedy_step : ℕ → ℕ → Vm → Vm
unfolding greedy_ranges note_pos add_count
greedy_step id target vm =
    let (set_id, _) = read_u16 vm.bc (target + 1) in
    let v = greedy_ranges id (get_ranges vm.bc set_id) vm in
    note_pos id (
      if ltb (v.regs.loops.loop_last_pos id) v.pos
      then push_choice (vm.ip - 6) (v.pos - 1) v
      else v)

-- the branch for any other body
unfoldable pub plain_step : ℕ → ℕ → Vm → Vm
unfolding note_pos add_count
plain_step id target vm =
    let l = vm.regs.loops in
    let v = trail_counter_inc id (l.counters id) (l.loop_last_pos id) (add_count id 1 vm) in
    let count = v.regs.loops.counters id in
    let open_ended = l.loop_max id == unbounded in
    if ltb count (l.loop_min id)
    then record (note_pos id v) { ip = target }
    else if open_ended
    then if v.pos == l.loop_last_pos id
      then v
      else if ltb (length v.s + 1) count
      then v
      else record (note_pos id (push_choice v.ip v.pos v)) { ip = target }
    else if ltb count (l.loop_max id)
    then record (note_pos id (push_choice v.ip v.pos v)) { ip = target }
    else v

-- whether the loop is, or from now on is, a greedy one
unfoldable pub mark_greedy : ℕ → ℕ → Vm → Vm
mark_greedy id target vm =
    let l = vm.regs.loops in
    if l.loop_max id == unbounded && at vm.bc target == span_opcode
    then with_loops (record l { loop_span_greedy = update l.loop_span_greedy id true }) vm
    else vm

-- Whether the step reads behind the bytecode: at the loop's body, which an unbounded loop looks at, or
-- in the ranges of a span body. `vm` is the state before `mark_greedy` and `marked` the one behind it.
unfoldable pub reads_past : ℕ → ℕ → Vm → Vm → Bool
reads_past id target vm marked =
    let (set_id, _) = read_u16 vm.bc (target + 1) in
    (vm.regs.loops.loop_max id == unbounded && leb (length vm.bc) target)
    || (marked.regs.loops.loop_span_greedy id && is_torn vm.bc (get_ranges vm.bc set_id))

unfoldable pub op_repeat_step : Vm → Outcome
unfolding mark_greedy greedy_step plain_step reads_past
op_repeat_step vm =
    let (id, ip) = read_u8 vm.bc vm.ip in
    let (target, ip') = read_u32 vm.bc ip in
    let v = record vm { ip = ip' } in
    let w = mark_greedy id target v in
    if ltb id max_loops && reads_past id target v w
    then outside past_bytecode v
    else running (
        if ltb id max_loops
        then if w.regs.loops.loop_span_greedy id
          then greedy_step id target w
          else plain_step id target w
        else v)
