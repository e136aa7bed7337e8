-- ===== src/Vm/Bounds/Landings.antt =====
-- Where the class opcodes of core/src/vm_exec.c move the cursor.
use libsnobol.Base.{ℕ, ◌+◌, ◌≤◌, not, Option, none, some, arith, length, Option-cases, inl, inr}
use libsnobol.Vm.Bounds.Walks.{
  utf8_peek_next_bounds, scan_bytes-le, find_byte-le, scan_codepoints-le,
}
use libsnobol.Vm.Bytes.{Bytes, utf8_peek_next}
use libsnobol.Vm.Classes.{range_contains, Bitmap, bitmap_single_ascii_byte, bitmap_test}
use libsnobol.Vm.Handlers.Matching.{
  Class, ascii, wide, missing, any_step, notany_step, span_step, break_ascii, break_step,
}
use libsnobol.Vm.Bounds.Steps.{Lands, within-Lands}

pub any_step-Lands : (c : Class) (bc s : Bytes) (pos : ℕ) → Lands s (any_step c bc s pos)
unfolding any_step
any_step-Lands (ascii map) bc s pos = within-Lands s _ (λ q e. ground arith)
any_step-Lands (wide r) bc s pos = elim (Option-cases (utf8_peek_next s pos)) [
  | inl stop ↦ rw (stop, any_step) tt
  | inr (cb, go) ↦
      within-Lands s _ (λ q e. ground (arith, go, utf8_peek_next_bounds s pos cb.0 cb.1 go))
]
any_step-Lands missing bc s pos = tt

pub notany_step-Lands : (c : Class) (bc s : Bytes) (pos : ℕ) → Lands s (notany_step c bc s pos)
unfolding notany_step
notany_step-Lands (ascii map) bc s pos = within-Lands s _ (λ q e. ground arith)
notany_step-Lands (wide r) bc s pos = elim (Option-cases (utf8_peek_next s pos)) [
  | inl stop ↦ rw (stop, notany_step) tt
  | inr (cb, go) ↦
      within-Lands s _ (λ q e. ground (arith, go, utf8_peek_next_bounds s pos cb.0 cb.1 go))
]
notany_step-Lands missing bc s pos = elim (Option-cases (utf8_peek_next s pos)) [
  | inl stop ↦ rw (stop, notany_step) tt
  | inr (cb, go) ↦
      within-Lands s _ (λ q e. ground (arith, go, utf8_peek_next_bounds s pos cb.0 cb.1 go))
]

pub span_step-Lands : (c : Class) (bc s : Bytes) (pos : ℕ) → Lands s (span_step c bc s pos)
unfolding span_step
span_step-Lands (ascii map) bc s pos =
    within-Lands s _ (λ q e. ground (arith, scan_bytes-le (length s) (bitmap_test map) s (pos + 1)))
span_step-Lands (wide r) bc s pos = elim (Option-cases (utf8_peek_next s pos)) [
  | inl stop ↦ rw (stop, span_step) tt
  | inr (cb, go) ↦ within-Lands s _ (λ q e. ground (
    arith,
    go,
    utf8_peek_next_bounds s pos cb.0 cb.1 go,
    scan_codepoints-le (length s) (range_contains bc r) s (pos + cb.1),
  ))
]
span_step-Lands missing bc s pos = tt

break_ascii-le :
    (o : Option ℕ) (map : Bitmap) (s : Bytes) (pos : ℕ)
    → pos ≤ length s
    → break_ascii o map s pos ≤ length s
unfolding break_ascii
break_ascii-le none map s pos h = scan_bytes-le (length s) _ s pos h
break_ascii-le (some c) map s pos h = ground (
  arith,
  find_byte-le (length s) c s pos,
  scan_bytes-le (length s) (λ d. not (bitmap_test map d)) s pos,
)

pub break_step-le :
    (c : Class) (bc s : Bytes) (pos : ℕ) → pos ≤ length s → break_step c bc s pos ≤ length s
unfolding break_step
break_step-le (ascii map) bc s pos h = break_ascii-le (bitmap_single_ascii_byte map) map s pos h
break_step-le (wide r) bc s pos h = scan_codepoints-le (length s) _ s pos h
break_step-le missing bc s pos h = scan_codepoints-le (length s) _ s pos h
