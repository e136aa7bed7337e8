-- ===== src/Vm/Buffer.antt =====
-- The output buffer of core/src/vm_exec.c: `snobol_buf_init`, `snobol_buf_append`, `snobol_buf_clear`
-- and `snobol_buf_free`. Allocation succeeds; the terminating zero is not part of the data.
use libsnobol.Base.{
  ℕ, suc, ◌+◌, ◌*◌, ◌<◌, ◌≡◌, refl, sym, false, [], ◌∷◌, ◌++◌, arith, leb, ◌==◌, if◌then◌else◌,
  length, length-append, Bool-cases, inl, inr,
}
use libsnobol.Vm.Bytes.{Bytes}
use libsnobol.Vm.Growth.{double_past-above}
use libsnobol.Vm.Trail.{double_past}
use mathlib.Core.List.{append-nil}

-- `snobol_buf`; `len` is the length of the data
pub record Buf : Type 0 where
  pub bytes : Bytes
  pub cap : ℕ

unfoldable pub buf_init : Buf
buf_init = record { bytes = []; cap = 1024 }

-- the capacity that `snobol_buf_append` leaves; its loop is the doubling loop of the trail
unfoldable pub grown_cap : ℕ → ℕ → ℕ
grown_cap need cap =
    if leb cap need then double_past (suc need) need (if cap == 0 then 1024 else cap * 2) else cap

unfoldable pub buf_append : Bytes → Buf → Buf
unfolding grown_cap
buf_append d b =
    if length d == 0
    then b
    else record { bytes = b.bytes ++ d; cap = grown_cap (length b.bytes + length d) b.cap }

unfoldable pub buf_clear : Buf → Buf
buf_clear b = record b { bytes = [] }

unfoldable pub buf_free : Buf → Buf
buf_free b = record { bytes = []; cap = 0 }

grown_cap-above : (need cap : ℕ) → need < grown_cap need cap
unfolding grown_cap
grown_cap-above need cap = elim (Bool-cases (leb cap need)) [
  | inr room ↦ rw room (ground (arith, room))
  | inl full ↦ elim (Bool-cases (cap == 0)) [
    | inl first ↦
        rw (full, first) (double_past-above (suc need) need 1024 (omega arith) (omega arith))
    | inr later ↦
        let pos : 0 < cap * 2 = ground (arith, later) in
        rw (full, later) (double_past-above (suc need) need (cap * 2) pos (omega arith))
  ]
]

-- An append puts the bytes behind the data, on a fresh, a used or a freed buffer; where there was
-- anything to append, the data and the terminating zero fit the capacity.
pub buf_append_lem :
    (d : Bytes) (b : Buf)
    → ((buf_append d b).bytes ≡ b.bytes ++ d)
      × (0 < length d → length (buf_append d b).bytes < (buf_append d b).cap)
unfolding buf_append
buf_append_lem [] b = (sym (append-nil b.bytes), λ h. elim (none_below h) [ ])
  where
    none_below : ¬ (0 < 0)
    none_below = omega arith
buf_append_lem (x ∷ d) b =
    let some_bytes : (suc (length d) == 0) ≡ false = ground arith in
    let fits = grown_cap-above (length b.bytes + length (x ∷ d)) b.cap in
    (rw some_bytes refl, λ _. rw some_bytes (omega (arith, length-append b.bytes (x ∷ d), fits)))
