-- ===== src/Vm/Exec.antt =====
-- The dispatch loop `vm_run`, the entry `vm_exec` and the label table of core/src/vm_exec.c, with
-- the opcodes of core/include/snobol/vm.h. The opcodes for host callbacks, output, tables, arrays and
-- dynamic patterns, and numbers that are no opcode, end the model's run with `outside`.
use libsnobol.Base.{
  ℕ, zero, suc, ◌+◌, ◌-◌, ◌*◌, ◌%◌, ◌^◌, Bool, false, ◌&&◌, List, [], ◌∷◌, ◌++◌, ltb, leb, ◌==◌,
  if◌then◌else◌, length, get_or, set, replicate,
}
use libsnobol.Vm.Arena.{arena_reset}
use libsnobol.Vm.Bytes.{Bytes, at}
use libsnobol.Vm.Classes.{be32, label_table_magic}
use libsnobol.Vm.Handlers.Control.{
  op_fail, op_jmp, op_split, op_cap_start, op_cap_end, op_assign, op_label, op_goto, op_goto_f,
  op_fence, op_abort,
}
use libsnobol.Vm.Handlers.Matching.{
  op_lit, op_any, op_notany, op_span, op_break, op_breakx, op_bal, op_len,
}
use libsnobol.Vm.Handlers.Outcome.{
  Outcome, running, matched, failed, outside, unmodelled, no_opcode, backtrack,
}
use libsnobol.Vm.Handlers.Position.{op_anchor, op_rem, op_rpos, op_rtab, op_pos, op_tab}
use libsnobol.Vm.Handlers.Repeat.{op_repeat_init, op_repeat_step}
use libsnobol.Vm.State.{Vm}

-- `OpCode`
pub data Opcode : Type 0 where
  accept fail jmp split lit any notany span break_ cap_start cap_end assign len eval anchor : Opcode
  repeat_init repeat_step emit_literal emit_capture emit_expr emit_table emit_format : Opcode
  label goto goto_f table_get table_set array_get array_set dynamic dynamic_def : Opcode
  breakx bal fence rem rpos rtab pos_ tab abort succeed nop : Opcode
  unknown : Opcode

-- the opcodes in the order of their numbers
abbrev pub opcodes : List Opcode
opcodes =
    accept ∷ fail ∷ jmp ∷ split ∷ lit ∷ any ∷ notany ∷ span ∷ break_ ∷ cap_start ∷ cap_end ∷ assign
    ∷ len ∷ eval ∷ anchor ∷ repeat_init ∷ repeat_step ∷ emit_literal ∷ emit_capture ∷ emit_expr
    ∷ emit_table ∷ emit_format ∷ label ∷ goto ∷ goto_f ∷ table_get ∷ table_set ∷ array_get
    ∷ array_set ∷ dynamic ∷ dynamic_def ∷ breakx ∷ bal ∷ fence ∷ rem ∷ rpos ∷ rtab ∷ pos_ ∷ tab
    ∷ abort ∷ succeed ∷ nop ∷ []

unfoldable pub decode : ℕ → Opcode
decode op = get_or opcodes op unknown

-- one round of the dispatch, from the state behind the opcode
unfoldable pub dispatch : Opcode → Vm → Outcome
dispatch accept vm = matched vm
dispatch fail vm = op_fail vm
dispatch jmp vm = op_jmp vm
dispatch split vm = op_split vm
dispatch lit vm = op_lit vm
dispatch any vm = op_any vm
dispatch notany vm = op_notany vm
dispatch span vm = op_span vm
dispatch break_ vm = op_break vm
dispatch cap_start vm = op_cap_start vm
dispatch cap_end vm = op_cap_end vm
dispatch assign vm = op_assign vm
dispatch len vm = op_len vm
dispatch anchor vm = op_anchor vm
dispatch repeat_init vm = op_repeat_init vm
dispatch repeat_step vm = op_repeat_step vm
dispatch label vm = op_label vm
dispatch goto vm = op_goto vm
dispatch goto_f vm = op_goto_f vm
dispatch breakx vm = op_breakx vm
dispatch bal vm = op_bal vm
dispatch fence vm = op_fence vm
dispatch rem vm = op_rem vm
dispatch rpos vm = op_rpos vm
dispatch rtab vm = op_rtab vm
dispatch pos_ vm = op_pos vm
dispatch tab vm = op_tab vm
dispatch abort vm = op_abort vm
dispatch succeed vm = matched vm
dispatch nop vm = running vm
dispatch unknown vm = outside (no_opcode (at vm.bc (vm.ip - 1))) vm
dispatch _ vm = outside (unmodelled (at vm.bc (vm.ip - 1))) vm

-- the body of `while (1)`
unfoldable pub step : Vm → Outcome
step vm =
    if leb (length vm.bc) vm.ip
    then backtrack vm
    else dispatch (decode (at vm.bc vm.ip)) (record vm { ip = vm.ip + 1 })

-- the loop, with fuel; where it runs out the state is still `running`
unfoldable pub run : ℕ → Vm → Outcome
unfolding step dispatch decode
run zero vm = running vm
run (suc fuel) vm = elim (step vm) [
  | running v ↦ run fuel v
  | matched v ↦ matched v
  | failed v ↦ failed v
  | outside op v ↦ outside op v
]

-- the head of `vm_run`, with the choice mode read from the environment
unfoldable pub run_start : Bool → Vm → Vm
run_start compact_mode vm = record vm {
  arena = arena_reset vm.arena;
  choices_top = 0;
  use_compact_choice = compact_mode;
  trail =
      if compact_mode
      then record { records = []; cap = if vm.trail.cap == 0 then 256 else vm.trail.cap }
      else vm.trail;
}

-- `vm_register_label`; entries that a growth leaves without a value are read as 0
unfoldable pub register_label : ℕ → ℕ → List ℕ → List ℕ
register_label label_id offset offsets =
    set (offsets ++ replicate (label_id + 1 - length offsets) 0) label_id (offset % 2 ^ 16)

-- the loop over the label table, `n` entries from entry `i` on
unfoldable pub register_labels : Bytes → ℕ → ℕ → ℕ → List ℕ → List ℕ
unfolding register_label
register_labels bc table_base zero i offsets = offsets
register_labels bc table_base (suc n) i offsets =
    register_labels bc table_base n (i + 1)
      (register_label (i % 2 ^ 16) (be32 bc (table_base + i * 4)) offsets)

unfoldable pub tail_labels : Bytes → List ℕ → List ℕ
unfolding register_labels
tail_labels bc offsets =
    let bc_len = length bc in
    let lc = be32 bc (bc_len - 8) in
    if leb 8 bc_len
      && (be32 bc (bc_len - 4) == label_table_magic)
      && ltb 0 lc
      && leb (8 + lc * 4) bc_len
    then register_labels bc (bc_len - 8 - lc * 4) lc 0 offsets
    else offsets

-- `vm_exec` up to its call of `vm_run`, on a state with no labels of its own
unfoldable pub exec_start : Vm → Vm
unfolding tail_labels
exec_start vm = record vm {
  ip = 0;
  pos = 0;
  max_cap_used = 0;
  max_counter_used = 0;
  regs = record vm.regs { loops = record vm.regs.loops { counters = λ _. 0 } };
  label_offsets = tail_labels vm.bc [];
  current_label = 0;
  in_goto_fail = false;
  abort_flag = false;
}

-- `vm_exec`
unfoldable pub exec : ℕ → Bool → Vm → Outcome
unfolding run run_start exec_start
exec fuel compact_mode vm = run fuel (run_start compact_mode (exec_start vm))
