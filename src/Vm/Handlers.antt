-- ===== src/Vm/Handlers.antt =====
-- The opcode handlers of `vm_run` in core/src/vm_exec.c, each from the state with the instruction
-- pointer behind the opcode. Child modules: the matching opcodes, the registers and control flow.
pub mod Outcome
pub mod Matching
pub mod Position
pub mod Control
pub mod Repeat
