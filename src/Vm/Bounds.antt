-- ===== src/Vm/Bounds.antt =====
-- The cursor never leaves the subject: bounds of the walks of core/src/vm_exec.c and of every handler.
pub mod Walks
pub mod Steps
pub mod Landings
pub mod Handlers
pub mod Registers
pub mod Run
