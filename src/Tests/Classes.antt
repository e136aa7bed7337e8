-- ===== src/Tests/Classes.antt =====
-- Runs of the class lookups and of the growing tables of core/src/vm_exec.c and core/src/vm_capture.c.
use libsnobol.Base.{
  ℕ, zero, suc, ◌%◌, ◌^◌, ◌≤◌, ◌<◌, ◌≡◌, ◌≢◌, true, false, not, [], ◌∷◌, some, arith, length,
  update, ◌↔◌,
}
use libsnobol.Vm.Bytes.{Bytes}
use libsnobol.Vm.Classes.{
  Ranges, Bitmap, range_contains, range_start, range_end, bitmap_single_ascii_byte, bitmap_test,
}
use libsnobol.Vm.Cursor.{scan_bytes}
use libsnobol.Vm.Exec.{register_label}
use libsnobol.Vm.Growth.{trail_push_lem, label_offset-register_label}
use libsnobol.Vm.Handlers.Control.{label_offset}
use libsnobol.Vm.Handlers.Matching.{break_ascii}
use libsnobol.Vm.Membership.{InRange, IsSorted, range_contains_lem}
use libsnobol.Vm.SingleByte.{break_ascii-scan_bytes}
use libsnobol.Vm.State.{Trail, UndoRecord, cap_write}
use libsnobol.Vm.Trail.{trail_push}

-- the class of the letters "a" to "c"
abbrev a_to_c : Bytes
a_to_c = 0 ∷ 0 ∷ 0 ∷ 97 ∷ 0 ∷ 0 ∷ 0 ∷ 99 ∷ []

abbrev a_to_c_ranges : Ranges
a_to_c_ranges = record { ptr = 0; count = 1; case_insensitive = 0 }

a_to_c-IsSorted : IsSorted a_to_c 0 1
a_to_c-IsSorted = record { ordered = λ i h. ordered_at i h; apart = λ i j h k. omega (arith, h, k) }
  where
    ordered_at : (i : ℕ) → i < 1 → range_start a_to_c 0 i ≤ range_end a_to_c 0 i
    ordered_at zero h = omega arith
    ordered_at (suc i) h = elim (none_below h) [ ]
      where
        none_below : ¬ (suc i < 1)
        none_below = omega arith

range_contains_example :
    (range_contains a_to_c a_to_c_ranges 98 ≡ true) ↔ ((i : ℕ) × (i < 1) × InRange a_to_c 0 98 i)
range_contains_example = range_contains_lem a_to_c a_to_c_ranges 98 a_to_c-IsSorted

-- the class of the blank
abbrev blank : Bitmap
blank = update (λ _. false) 32 true

break_ascii-scan_bytes_example :
    break_ascii (bitmap_single_ascii_byte blank) blank (97 ∷ 32 ∷ []) 0
    ≡ scan_bytes 2 (λ c. not (bitmap_test blank c)) (97 ∷ 32 ∷ []) 0
break_ascii-scan_bytes_example = break_ascii-scan_bytes blank (97 ∷ 32 ∷ []) 0 (omega arith)

abbrev a_write : UndoRecord
a_write = record {
  kind = cap_write;
  index = 1;
  sub = 0;
  prior_u = 0;
  prior_a = 2;
  prior_b = 3;
  prior_lp = 0;
}

abbrev full_trail : Trail
full_trail = record { records = a_write ∷ []; cap = 1 }

trail_push_example :
    ((trail_push a_write full_trail).records ≡ a_write ∷ a_write ∷ [])
    × (length (trail_push a_write full_trail).records ≤ (trail_push a_write full_trail).cap)
trail_push_example = trail_push_lem a_write full_trail (omega arith)

label_offset-register_label_example :
    (label_offset (register_label 3 70000 (5 ∷ [])) 3 ≡ some (70000 % 2 ^ 16))
    × ((other : ℕ)
        → other < 1
        → other ≢ 3
        → label_offset (register_label 3 70000 (5 ∷ [])) other ≡ label_offset (5 ∷ []) other)
label_offset-register_label_example = label_offset-register_label 3 70000 (5 ∷ [])
