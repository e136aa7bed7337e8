-- ===== src/Vm/Handlers/Outcome.antt =====
-- How a handler of `vm_run` (core/src/vm_exec.c) ends. What is freed at the end is not modelled.
use libsnobol.Base.{ℕ, Option, none, some}
use libsnobol.Vm.Choices.{pop_choice}
use libsnobol.Vm.State.{Vm}

-- How a run leaves the model: at an opcode whose handler is not modelled, at one that has no entry in
-- `opcode_table`, where the source jumps through a word behind the table, and where the source reads
-- bytes behind the bytecode.
pub data Exit : Type 0 where
  unmodelled : ℕ → Exit
  no_opcode : ℕ → Exit
  past_bytecode : Exit

pub data Outcome : Type 0 where
  running : Vm → Outcome
  matched : Vm → Outcome
  failed : Vm → Outcome
  outside : Exit → Vm → Outcome

-- `if (!vm_pop_choice(vm)) goto fail_ret;`
unfoldable pub retry : Option Vm → Vm → Outcome
retry none vm = failed vm
retry (some v) vm = running v

unfoldable pub backtrack : Vm → Outcome
unfolding retry pop_choice
backtrack vm = retry (pop_choice vm) vm

-- OP_BAL: where no opening delimiter stands, the handler leaves the dispatch loop by `break` after a
-- choice was popped, and `vm_run` returns false.
unfoldable pub leave : Option Vm → Vm → Outcome
leave none vm = failed vm
leave (some v) vm = failed v

unfoldable pub backtrack_and_leave : Vm → Outcome
unfolding leave pop_choice
backtrack_and_leave vm = leave (pop_choice vm) vm
