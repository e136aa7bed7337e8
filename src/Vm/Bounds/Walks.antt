-- ===== src/Vm/Bounds/Walks.antt =====
-- Bounds of `utf8_peek_next` (core/include/snobol/vm.h) and of the cursor walks of core/src/vm_exec.c.
use libsnobol.Base.{
  ℕ, zero, suc, ◌+◌, ◌-◌, ◌≤◌, ◌≡◌, Bool, some, arith, length, Option-cases, inl, inr,
}
use libsnobol.Vm.Bytes.{Bytes, utf8_peek_next}
use libsnobol.Vm.Cursor.{
  skip_codepoints, back_over, walk_back, on_over, walk_on, scan_bytes, scan_codepoints, find_byte,
  balance,
}

-- A code point that is read lies within the subject and has one to four bytes.
pub utf8_peek_next_bounds :
    (s : Bytes) (pos cp bytes : ℕ)
    → utf8_peek_next s pos ≡ some (cp, bytes)
    → (1 ≤ bytes) × (bytes ≤ 4) × (pos + bytes ≤ length s)
unfolding utf8_peek_next
utf8_peek_next_bounds s pos cp bytes h = ground arith

pub skip_codepoints-le :
    (n : ℕ) (s : Bytes) (p q : ℕ) → p ≤ length s → skip_codepoints n s p ≡ some q → q ≤ length s
unfolding skip_codepoints
skip_codepoints-le zero s p q h e = ground arith
skip_codepoints-le (suc n) s p q h e = elim (Option-cases (utf8_peek_next s p)) [
  | inl stop ↦ absurd (ground arith)
  | inr (cb, go) ↦
      skip_codepoints-le n s (p + cb.1) q ((utf8_peek_next_bounds s p cb.0 cb.1 go).2)
        (ground arith)
]

pub back_over-le : (s : Bytes) (t : ℕ) → back_over s t ≤ t
unfolding back_over
back_over-le s zero = omega arith
back_over-le s (suc t) = ground (arith, back_over-le s t)

pub walk_back-le : (n : ℕ) (s : Bytes) (t : ℕ) → walk_back n s t ≤ t
unfolding walk_back
walk_back-le zero s t = omega arith
walk_back-le (suc n) s zero = omega arith
walk_back-le (suc n) s (suc t) = omega (arith, walk_back-le n s (back_over s t), back_over-le s t)

pub on_over-le : (fuel : ℕ) (s : Bytes) (t : ℕ) → t ≤ length s → on_over fuel s t ≤ length s
unfolding on_over
on_over-le zero s t h = h
on_over-le (suc fuel) s t h = ground (arith, on_over-le fuel s (t + 1))

pub walk_on-le : (n : ℕ) (s : Bytes) (t : ℕ) → t ≤ length s → walk_on n s t ≤ length s
unfolding walk_on
walk_on-le zero s t h = h
walk_on-le (suc n) s t h =
    ground (arith, walk_on-le n s (on_over (length s) s (t + 1)), on_over-le (length s) s (t + 1))

pub scan_bytes-le :
    (fuel : ℕ) (test : ℕ → Bool) (s : Bytes) (pos : ℕ)
    → pos ≤ length s
    → scan_bytes fuel test s pos ≤ length s
unfolding scan_bytes
scan_bytes-le zero test s pos h = h
scan_bytes-le (suc fuel) test s pos h = ground (arith, scan_bytes-le fuel test s (pos + 1))

pub le-scan_bytes :
    (fuel : ℕ) (test : ℕ → Bool) (s : Bytes) (pos : ℕ) → pos ≤ scan_bytes fuel test s pos
unfolding scan_bytes
le-scan_bytes zero test s pos = omega arith
le-scan_bytes (suc fuel) test s pos = ground (arith, le-scan_bytes fuel test s (pos + 1))

pub find_byte-le : (fuel c : ℕ) (s : Bytes) (pos : ℕ) → find_byte fuel c s pos ≤ length s
unfolding find_byte
find_byte-le zero c s pos = omega arith
find_byte-le (suc fuel) c s pos = ground (arith, find_byte-le fuel c s (pos + 1))

pub scan_codepoints-le :
    (fuel : ℕ) (test : ℕ → Bool) (s : Bytes) (pos : ℕ)
    → pos ≤ length s
    → scan_codepoints fuel test s pos ≤ length s
unfolding scan_codepoints
scan_codepoints-le zero test s pos h = h
scan_codepoints-le (suc fuel) test s pos h = elim (Option-cases (utf8_peek_next s pos)) [
  | inl stop ↦ rw (stop, scan_codepoints) h
  | inr (cb, go) ↦ ground (
    arith,
    go,
    utf8_peek_next_bounds s pos cb.0 cb.1 go,
    scan_codepoints-le fuel test s (pos + cb.1),
  )
]

pub balance-le :
    (fuel o c : ℕ) (s : Bytes) (pos depth q : ℕ)
    → balance fuel o c s pos depth ≡ some q
    → q ≤ length s
unfolding balance
balance-le zero o c s pos depth q e = ground arith
balance-le (suc fuel) o c s pos depth q e = elim (Option-cases (utf8_peek_next s pos)) [
  | inl stop ↦ absurd (ground arith)
  | inr (cb, go) ↦ ground (
    arith,
    go,
    utf8_peek_next_bounds s pos cb.0 cb.1 go,
    balance-le fuel o c s (pos + cb.1) (depth + 1) q,
    balance-le fuel o c s (pos + cb.1) (depth - 1) q,
    balance-le fuel o c s (pos + cb.1) depth q,
  )
]
