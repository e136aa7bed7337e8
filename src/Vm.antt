-- ===== src/Vm.antt =====
-- The full virtual machine: core/src/vm_exec.c, core/src/vm_choice.c, core/src/vm_capture.c and
-- core/include/snobol/vm.h.
pub mod Arena
pub mod Bytes
pub mod State
pub mod Trail
pub mod Choices
pub mod Classes
pub mod Cursor
pub mod Handlers
pub mod Exec
pub mod Backtrack
pub mod Bounds
pub mod Membership
pub mod Snapshot
pub mod Positions
pub mod Bitmaps
pub mod SingleByte
pub mod Growth
pub mod Jumps
pub mod Buffer
