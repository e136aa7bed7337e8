-- ===== src/Vm/Choices.antt =====
-- The choice stack: `vm_push_choice`, `vm_pop_choice`, the statistics and `snobol_vm_reset` of
-- core/src/vm_choice.c. The sizes are those of the 64-bit ABI.
use libsnobol.Base.{
  ℕ, ◌+◌, ◌-◌, ◌*◌, ◌/◌, ◌%◌, ◌^◌, false, Option, none, some, ltb, ◌==◌, if◌then◌else◌,
}
use libsnobol.Vm.Arena.{align8, arena_alloc, arena_pop_last, arena_reset, last_record, arena_depth}
use libsnobol.Vm.State.{Choice, compact, snapshot, Vm}
use libsnobol.Vm.Trail.{trail_top, trail_replay}

-- `sizeof(CompactChoiceHeader)` and `sizeof(struct choice)`
abbrev pub compact_header_size : ℕ
compact_header_size = 48

abbrev pub choice_size : ℕ
choice_size = 1248

-- `vm_compact_choice_record_size`
unfoldable pub compact_choice_record_size : ℕ
compact_choice_record_size = align8 (compact_header_size + 4)

-- what follows the allocation in both branches of `vm_push_choice`
count_push : ℕ → Vm → Vm
count_push bytes vm =
    let top = vm.arena.total_used in
    let depth = vm.choice_live_depth + 1 in
    record vm {
      choices_top = top;
      choice_allocated = vm.choice_allocated + bytes;
      choice_push_count = vm.choice_push_count + 1;
      choice_live_depth = depth;
      choice_peak_memory = if ltb vm.choice_peak_memory top then top else vm.choice_peak_memory;
      choice_peak_depth = if ltb vm.choice_peak_depth depth then depth else vm.choice_peak_depth;
    }

-- the record that is written, by the mode
unfoldable pub choice_record : ℕ → ℕ → Vm → Choice
choice_record ip pos vm =
    let r = vm.regs in
    if vm.use_compact_choice
    then compact ip pos vm.var_count vm.max_cap_used vm.max_counter_used
        (trail_top vm.trail % 2 ^ 32)
    else snapshot ip pos vm.var_count vm.max_cap_used vm.max_counter_used r.caps.cap_start
        r.caps.cap_end r.loops.counters r.loops.loop_last_pos

-- `vm_push_choice`
unfoldable pub push_choice : ℕ → ℕ → Vm → Vm
unfolding count_push choice_record
push_choice ip pos vm =
    let payload = if vm.use_compact_choice then compact_header_size + 4 else choice_size in
    count_push (payload + 2 * 4)
      (record vm { arena = arena_alloc payload (choice_record ip pos vm) vm.arena })

-- `memcpy` of the first `n` registers
unfoldable pub copy_first : ℕ → (ℕ → ℕ) → (ℕ → ℕ) → ℕ → ℕ
copy_first n saved current i = if ltb i n then saved i else current i

-- The restore part of `vm_pop_choice`, by the layout of the record. The code takes the layout from
-- `use_compact_choice`; `vm_run` sets it once, on an empty arena, and the push writes by it.
unfoldable pub restore : Choice → Vm → Vm
unfolding copy_first
restore (compact ip pos var_count max_cap_used max_counter_used trail_base) vm =
    trail_replay trail_base (record vm {
      ip = ip;
      pos = pos;
      var_count = var_count;
      max_cap_used = max_cap_used;
      max_counter_used = max_counter_used;
    })
restore
      (snapshot ip pos var_count max_cap_used max_counter_used cap_start cap_end counters last_pos)
      vm =
    record vm {
      ip = ip;
      pos = pos;
      var_count = var_count;
      max_cap_used = max_cap_used;
      max_counter_used = max_counter_used;
      regs = record {
        caps = record vm.regs.caps {
          cap_start = copy_first max_cap_used cap_start vm.regs.caps.cap_start;
          cap_end = copy_first max_cap_used cap_end vm.regs.caps.cap_end;
        };
        loops = record vm.regs.loops {
          counters = copy_first max_counter_used counters vm.regs.loops.counters;
          loop_last_pos = copy_first max_counter_used last_pos vm.regs.loops.loop_last_pos;
        };
      };
    }

-- the end of `vm_pop_choice`
unfoldable pub drop_choice : Vm → Vm
drop_choice vm =
    let popped = arena_pop_last vm.arena in
    record vm {
      arena = popped;
      choices_top = popped.total_used;
      choice_live_depth =
          if ltb 0 vm.choice_live_depth then vm.choice_live_depth - 1 else vm.choice_live_depth;
    }

-- `none` where the page that the record is read from is empty
unfoldable pub pop_record : Option Choice → Vm → Option Vm
unfolding drop_choice
pop_record none vm = none
pop_record (some c) vm = some (drop_choice (restore c vm))

-- `vm_pop_choice`; `none` is its `false`
unfoldable pub pop_choice : Vm → Option Vm
unfolding pop_record last_record restore
pop_choice vm = if vm.arena.total_used == 0 then none else pop_record (last_record vm.arena.cur) vm

-- `vm_choice_stack_memory_usage`
unfoldable pub choice_stack_memory_usage : Vm → ℕ
choice_stack_memory_usage vm = vm.choices_top

-- `vm_choice_stack_depth`
unfoldable pub choice_stack_depth : Vm → Option ℕ
choice_stack_depth vm = arena_depth vm.arena

-- `vm_choice_record_average_size`
unfoldable pub choice_record_average_size : Vm → ℕ
choice_record_average_size vm =
    if ltb 0 vm.choice_push_count then vm.choice_allocated / vm.choice_push_count else 0

-- `snobol_vm_reset`
unfoldable pub vm_reset : Vm → Vm
vm_reset vm = record vm {
  regs = record {
    caps = record { cap_start = λ _. 0; cap_end = λ _. 0; var_start = λ _. 0; var_end = λ _. 0 };
    loops = record {
      counters = λ _. 0;
      loop_min = λ _. 0;
      loop_max = λ _. 0;
      loop_last_pos = λ _. 0;
      loop_span_greedy = λ _. false;
    };
  };
  var_count = 0;
  max_cap_used = 0;
  max_counter_used = 0;
  ip = 0;
  pos = 0;
  abort_flag = false;
  in_goto_fail = false;
  current_label = 0;
  arena = arena_reset vm.arena;
  choices_top = 0;
  choice_allocated = 0;
  choice_push_count = 0;
  choice_peak_depth = 0;
  choice_peak_memory = 0;
}
