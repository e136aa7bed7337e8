-- ===== src/Vm/Bitmaps.antt =====
-- The bitmaps that core/src/vm_exec.c makes of the ranges of a class decide what the ranges do.
use libsnobol.Base.{ℕ, ◌+◌, ◌≤◌, ◌<◌}
use libsnobol.Vm.Bytes.{Bytes}
use libsnobol.Vm.Membership.{InRange}

-- some range from number `i` on, of `n`, holds `k`
abbrev Among : Bytes → ℕ → ℕ → ℕ → ℕ → Type 0
Among bc ptr n i k = (j : ℕ) × (i ≤ j) × (j < i + n) × InRange bc ptr k j
