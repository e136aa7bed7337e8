-- ===== src/Compiler/Correct.antt =====
-- Compiled patterns on the virtual machine: the code of core/src/compiler_codegen.c run by
-- core/src/vm_exec.c.
pub mod Layout
pub mod Plain
pub mod Patching
pub mod Meaning
pub mod Threads
pub mod Behaviour
pub mod Machine
pub mod Cuts
pub mod Registers
pub mod Dispatch
pub mod Prefix
pub mod Instructions
pub mod Execution
