-- ===== src/Vm/Backtrack.antt =====
-- What backtracking restores: proofs about the undo trail and the choice stack of
-- core/src/vm_capture.c and core/src/vm_choice.c under the handlers of core/src/vm_exec.c.
pub mod Replay
pub mod Thread
pub mod Writes
pub mod Steps
pub mod Control
pub mod Repeats
pub mod Restore
