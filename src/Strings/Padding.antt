-- ===== src/Strings/Padding.antt =====
-- LPAD of core/src/string_fn.c pads to the width in code points.
use libsnobol.Base.{
  ℕ, zero, suc, ◌+◌, ◌-◌, ◌≤◌, ◌≡◌, refl, ap, sym, ◌∙◌, [], ◌∷◌, ◌++◌, some, arith, leb, length,
  Bool-cases, inl, inr, drop, length-drop, length-append, max,
}
use libsnobol.Strings.{step_len, count_cps, snobol_size, append_times, snobol_lpad}
use libsnobol.Strings.CodePoints.{step_len-bounds, snobol_size-count_cps}
use libsnobol.Strings.Encoding.{Encoded, IsScalar, encode_utf8-Encoded, step_len-Encoded}
use libsnobol.Vm.Bytes.{Bytes}
use mathlib.Core.List.{append_assoc}

too_long : (b : ℕ) (bs : Bytes) → ¬ (length (b ∷ bs) ≤ 0)
too_long b bs = omega arith

-- more fuel than bytes counts the same
count_cps-fuel : (f g : ℕ) (s : Bytes) → length s ≤ f → length s ≤ g → count_cps f s ≡ count_cps g s
unfolding count_cps
count_cps-fuel zero zero s h k = refl
count_cps-fuel zero (suc g) [] h k = refl
count_cps-fuel zero (suc g) (b ∷ bs) h k = elim (too_long b bs h) [ ]
count_cps-fuel (suc f) zero [] h k = refl
count_cps-fuel (suc f) zero (b ∷ bs) h k = elim (too_long b bs k) [ ]
count_cps-fuel (suc f) (suc g) [] h k = refl
count_cps-fuel (suc f) (suc g) (b ∷ bs) h k =
    let s = b ∷ bs in
    let n = step_len s in
    let (lo, hi) = step_len-bounds b bs in
    let cut = length-drop n s in
    ap suc (
      count_cps-fuel f g (drop n s) (omega (arith, cut, lo, hi, h)) (omega (arith, cut, lo, hi, k)))

count_cps-Encoded :
    (f cp : ℕ) (e rest : Bytes)
    → Encoded cp e
    → count_cps (suc f) (e ++ rest) ≡ suc (count_cps f rest)
unfolding count_cps
count_cps-Encoded f cp _ rest (Encoded.one h) = rw (step_len-Encoded cp _ rest (Encoded.one h)) refl
count_cps-Encoded f cp _ rest (Encoded.two a b e hb la ha) =
    rw (step_len-Encoded cp _ rest (Encoded.two a b e hb la ha)) refl
count_cps-Encoded f cp _ rest (Encoded.three a b c e hb hc ha) =
    rw (step_len-Encoded cp _ rest (Encoded.three a b c e hb hc ha)) refl
count_cps-Encoded f cp _ rest (Encoded.four a b c d e hb hc hd ha) =
    rw (step_len-Encoded cp _ rest (Encoded.four a b c d e hb hc hd ha)) refl

length-Encoded : (cp : ℕ) (e : Bytes) → Encoded cp e → 1 ≤ length e
length-Encoded cp _ (Encoded.one h) = omega arith
length-Encoded cp _ (Encoded.two a b e hb la ha) = omega arith
length-Encoded cp _ (Encoded.three a b c e hb hc ha) = omega arith
length-Encoded cp _ (Encoded.four a b c d e hb hc hd ha) = omega arith

-- each pad in front counts once
count_cps-append_times :
    (n cp : ℕ) (e s : Bytes)
    → Encoded cp e
    → count_cps (length (append_times n e ++ s)) (append_times n e ++ s)
      ≡ n + count_cps (length s) s
unfolding append_times
count_cps-append_times zero cp e s h = omega arith
count_cps-append_times (suc n) cp e s h =
    let rest = append_times n e ++ s in
    let whole = e ++ rest in
    let f = length whole - 1 in
    let long : length rest ≤ f = omega (arith, length-append e rest, length-Encoded cp e h) in
    ap (λ l. count_cps (length l) l) (append_assoc e (append_times n e) s)
    ∙ count_cps-fuel (length whole) (suc f) whole (omega arith) (omega arith)
    ∙ count_cps-Encoded f cp e rest h
    ∙ ap suc (count_cps-fuel f (length rest) rest long (omega arith))
    ∙ omega (arith, count_cps-append_times n cp e s h)

-- LPAD with a Unicode scalar value succeeds, and its result is as many code points wide as was asked
-- for, or as the string where that is wider.
pub snobol_size-snobol_lpad :
    (s : Bytes) (width cp : ℕ)
    → IsScalar cp
    → (out : Bytes) × (snobol_lpad s width cp ≡ some out)
      × (snobol_size out ≡ max width (snobol_size s))
unfolding snobol_lpad
snobol_size-snobol_lpad s width cp scalar = elim (Bool-cases (leb width (snobol_size s))) [
  | inl wide ↦ (s, rw wide refl, ground (arith, wide))
  | inr narrow ↦
      let (e, written, shape) = encode_utf8-Encoded cp scalar in
      let k = width - snobol_size s in
      let out = append_times k e ++ s in
      (
        out,
        rw (narrow, written) refl,
        snobol_size-count_cps out
            ∙ count_cps-append_times k cp e s shape
            ∙ ap (λ n. k + n) (sym (snobol_size-count_cps s))
            ∙ ground (arith, narrow),
      )
]
