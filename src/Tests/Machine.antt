-- ===== src/Tests/Machine.antt =====
-- Programs for the virtual machine of core/src/vm_exec.c.
use libsnobol.Base.{some, ◌+◌, length, ◌≢◌, ℕ, ◌≡◌, refl, true, false, [], ◌∷◌, arith}
use libsnobol.Vm.Arena.Stack.{
  items, arena_create-IsValid, arena_alloc_lem, arena_alloc-IsValid, arena_pop_last_lem,
}
use libsnobol.Vm.Arena.Stack
use libsnobol.Vm.Arena.Depth.{arena_depth_lem}
use libsnobol.Vm.Backtrack.Restore.{RunsAbove, IsRestored, pop_choice-push_choice}
use libsnobol.Vm.Arena.{
  Arena, arena_depth, arena_create, arena_reset, head_page, arena_alloc, arena_pop_last,
  last_record, footprint_of,
}
use libsnobol.Vm.Bytes.{Bytes, read_u32}
use libsnobol.Vm.Choices.{push_choice, pop_choice}
use libsnobol.Vm.Exec.{exec, step, dispatch, decode}
use libsnobol.Vm.Handlers.Control.{op_split, op_fail}
use libsnobol.Vm.Handlers.Matching.{op_lit}
use libsnobol.Vm.Handlers.Outcome.{Outcome, running, matched, failed, outside, backtrack}
use libsnobol.Vm.State.{Vm}
use libsnobol.Vm.Trail.{trail_replay}

-- a fresh machine
abbrev pub machine : Bytes → Bytes → Vm
machine bc s = record {
  bc = bc;
  s = s;
  ip = 0;
  pos = 0;
  regs = record {
    caps = record { cap_start = λ _. 0; cap_end = λ _. 0; var_start = λ _. 0; var_end = λ _. 0 };
    loops = record {
      counters = λ _. 0;
      loop_min = λ _. 0;
      loop_max = λ _. 0;
      loop_last_pos = λ _. 0;
      loop_span_greedy = λ _. false;
    };
  };
  var_count = 0;
  max_cap_used = 0;
  max_counter_used = 0;
  arena = arena_create;
  choices_top = 0;
  use_compact_choice = true;
  choice_allocated = 0;
  choice_push_count = 0;
  choice_peak_depth = 0;
  choice_peak_memory = 0;
  choice_live_depth = 0;
  trail = record { records = []; cap = 0 };
  label_offsets = [];
  current_label = 0;
  in_goto_fail = false;
  abort_flag = false;
}

abbrev end_pos : Outcome → ℕ
end_pos (running vm) = vm.pos
end_pos (matched vm) = vm.pos
end_pos (failed vm) = 100
end_pos (outside op vm) = 200

-- SPLIT 9 20; LIT "ab"; FAIL; LIT "a"; ACCEPT: an alternation whose first branch fails late
abbrev alternation : Bytes
alternation =
    3 ∷ 0 ∷ 0 ∷ 0 ∷ 9 ∷ 0 ∷ 0 ∷ 0 ∷ 21 ∷ 4 ∷ 0 ∷ 0 ∷ 0 ∷ 18 ∷ 0 ∷ 0 ∷ 0 ∷ 2 ∷ 97 ∷ 98 ∷ 1 ∷ 4 ∷ 0
    ∷ 0 ∷ 0 ∷ 30 ∷ 0 ∷ 0 ∷ 0 ∷ 1 ∷ 97 ∷ 0 ∷ []

second_branch : end_pos (exec 10 true (machine alternation (97 ∷ 98 ∷ []))) ≡ 1
unfolding exec arena_create read_u32 op_split op_lit op_fail backtrack push_choice pop_choice
    arena_alloc arena_pop_last arena_reset head_page last_record trail_replay
second_branch = refl

-- LIT with a text behind the end of the bytecode, on a subject that is long enough and on an empty one
past_end : end_pos (exec 1 true (machine (4 ∷ 0 ∷ 0 ∷ 0 ∷ 20 ∷ 0 ∷ 0 ∷ 0 ∷ 1 ∷ []) (97 ∷ []))) ≡ 200
unfolding exec arena_create arena_reset head_page read_u32 op_lit
past_end = refl

too_short : end_pos (exec 1 true (machine (4 ∷ 0 ∷ 0 ∷ 0 ∷ 20 ∷ 0 ∷ 0 ∷ 0 ∷ 1 ∷ []) [])) ≡ 100
unfolding exec arena_create arena_reset head_page read_u32 op_lit backtrack pop_choice
too_short = refl

-- the state behind the operands of the split
abbrev at_split : Vm
at_split = record (machine alternation (97 ∷ 98 ∷ [])) { ip = 9 }

-- the second branch is pushed and the literal of the first one matched
abbrev past_literal : Vm
past_literal = record (push_choice 21 0 at_split) { ip = 20; pos = 2 }

pop_choice-push_choice_example :
    (w : Vm) × (pop_choice past_literal ≡ some w) × IsRestored 21 0 at_split w
unfolding push_choice arena_create arena_alloc step read_u32 op_lit dispatch decode
pop_choice-push_choice_example =
    pop_choice-push_choice 21 0 at_split {v = past_literal} refl (omega arith) arena_create-IsValid
      (RunsAbove.next RunsAbove.here refl
        (record { newer = []; stack = refl; short = omega arith }))
      refl

abbrev one_record : Arena ℕ
one_record = arena_alloc 4070 8 arena_create

abbrev two_records : Arena ℕ
two_records = arena_alloc 48 7 one_record

two_records-IsValid : Stack.IsValid two_records
two_records-IsValid = arena_alloc-IsValid _ _ _ (arena_alloc-IsValid _ _ _ arena_create-IsValid)

arena_pop_last_example :
    (two_records.total_used ≢ 0)
    × (last_record two_records.cur ≡ some 7)
    × (items (arena_pop_last two_records) ≡ 8 ∷ [])
    × Stack.IsValid (arena_pop_last two_records)
unfolding arena_alloc arena_create
arena_pop_last_example = arena_pop_last_lem two_records two_records-IsValid refl

arena_alloc_example :
    (items two_records ≡ 7 ∷ items one_record)
    × (last_record two_records.cur ≡ some 7)
    × (two_records.total_used ≡ one_record.total_used + footprint_of 48)
    × Stack.IsValid two_records
arena_alloc_example =
    arena_alloc_lem 48 7 one_record (arena_alloc-IsValid _ _ _ arena_create-IsValid)

arena_depth_example : arena_depth two_records ≡ some (length (items two_records))
arena_depth_example = arena_depth_lem two_records two_records-IsValid
