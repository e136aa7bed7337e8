-- ===== src/Vm/State.antt =====
-- The state of the virtual machine: `VM`, `UndoRecord`, `CompactChoiceHeader` and `struct choice`
-- of core/include/snobol/vm.h. A register file is a function from its index; the code tests an index
-- against `MAX_CAPS`, `MAX_VARS` or `MAX_LOOPS` before each access.
use libsnobol.Base.{ℕ, Bool, List}
use libsnobol.Vm.Arena.{Arena}
use libsnobol.Vm.Bytes.{Bytes}

abbrev pub max_caps : ℕ
max_caps = 64

abbrev pub max_vars : ℕ
max_vars = 64

abbrev pub max_loops : ℕ
max_loops = 16

-- the capture and variable registers of `VM`
pub record Captures : Type 0 where
  pub cap_start : ℕ → ℕ
  pub cap_end : ℕ → ℕ
  pub var_start : ℕ → ℕ
  pub var_end : ℕ → ℕ

-- the loop registers of `VM`
pub record Loops : Type 0 where
  pub counters : ℕ → ℕ
  pub loop_min : ℕ → ℕ
  pub loop_max : ℕ → ℕ
  pub loop_last_pos : ℕ → ℕ
  pub loop_span_greedy : ℕ → Bool

pub record Registers : Type 0 where
  pub caps : Captures
  pub loops : Loops

-- `UndoKind`
pub data UndoKind : Type 0 where
  counter_dec cap_write wl_pop var_write : UndoKind

-- `UndoRecord`
pub record UndoRecord : Type 0 where
  pub kind : UndoKind
  pub index : ℕ
  pub sub : ℕ
  pub prior_u : ℕ
  pub prior_a : ℕ
  pub prior_b : ℕ
  pub prior_lp : ℕ

-- `trail`, `trail_cap` and `trail_top`: the live records, the last one first, so that `trail_top` is
-- their number.
pub record Trail : Type 0 where
  pub records : List UndoRecord
  pub cap : ℕ

-- A record of the choice stack, in the layout of its mode: `CompactChoiceHeader` without its size
-- words and padding, or `struct choice`.
pub data Choice : Type 0 where
  compact : (ip pos var_count max_cap_used max_counter_used trail_base : ℕ) → Choice
  snapshot :
      (ip pos var_count max_cap_used max_counter_used : ℕ)
      → (cap_start cap_end counters loop_last_pos : ℕ → ℕ) → Choice

-- `VM`, the fields that the modelled code reads or writes
pub record Vm : Type 0 where
  pub bc : Bytes
  pub s : Bytes
  pub ip : ℕ
  pub pos : ℕ
  pub regs : Registers
  pub var_count : ℕ
  pub max_cap_used : ℕ
  pub max_counter_used : ℕ
  pub arena : Arena Choice
  pub choices_top : ℕ
  pub use_compact_choice : Bool
  pub choice_allocated : ℕ
  pub choice_push_count : ℕ
  pub choice_peak_depth : ℕ
  pub choice_peak_memory : ℕ
  pub choice_live_depth : ℕ
  pub trail : Trail
  pub label_offsets : List ℕ
  pub current_label : ℕ
  pub in_goto_fail : Bool
  pub abort_flag : Bool
