-- ===== src/Strings/CodePoints.antt =====
-- The walks over code points of core/src/string_fn.c: SIZE, REVERSE and SUBSTR.
use libsnobol.Base.{
  ℕ, zero, suc, ◌+◌, ◌-◌, ◌≤◌, ◌≡◌, refl, ap, sym, ◌∙◌, Bool, true, false, ◌&&◌, [], ◌∷◌, ◌++◌,
  none, some, arith, ltb, ◌==◌, if◌then◌else◌, length, Bool-cases, inl, inr, drop, take,
  length-drop, reverse, length-take, length-append,
}
use libsnobol.Strings.{
  str_is_ascii, utf8_cp_len, step_len, count_cps, snobol_size, spans, append_backwards,
  snobol_reverse, skip_cps, take_cps, snobol_substr,
}
use libsnobol.Vm.Bytes.{Bytes}
use mathlib.Core.List.{reverse-cons, append_assoc, append-nil}

pub step_len-bounds :
    (b : ℕ) (bs : Bytes) → (1 ≤ step_len (b ∷ bs)) × (step_len (b ∷ bs) ≤ suc (length bs))
unfolding step_len utf8_cp_len
step_len-bounds b bs = (ground arith, ground arith)

pub take-drop : (n : ℕ) (xs : Bytes) → take n xs ++ drop n xs ≡ xs
take-drop zero xs = refl
take-drop (suc n) [] = refl
take-drop (suc n) (x ∷ xs) = ap (λ l. x ∷ l) (take-drop n xs)

-- an ASCII string goes on byte by byte
ascii-head :
    (b : ℕ) (bs : Bytes)
    → str_is_ascii (b ∷ bs) ≡ true
    → (step_len (b ∷ bs) ≡ 1) × (str_is_ascii bs ≡ true)
unfolding str_is_ascii step_len utf8_cp_len
ascii-head b bs h = (ground (arith, h), ground (arith, h))

count_cps-ascii :
    (fuel : ℕ) (s : Bytes) → length s ≤ fuel → str_is_ascii s ≡ true → count_cps fuel s ≡ length s
unfolding count_cps
count_cps-ascii zero [] h a = refl
count_cps-ascii zero (b ∷ bs) h a = omega (arith, h)
count_cps-ascii (suc fuel) [] h a = refl
count_cps-ascii (suc fuel) (b ∷ bs) h a =
    let (one, rest) = ascii-head b bs a in
    rw one (ap suc (count_cps-ascii fuel bs (omega (arith, h)) rest))

-- The ASCII path of SIZE gives what the walk over the code points gives, so that SIZE is that count for
-- every string.
pub snobol_size-count_cps : (s : Bytes) → snobol_size s ≡ count_cps (length s) s
unfolding snobol_size
snobol_size-count_cps s = elim (Bool-cases (str_is_ascii s)) [
  | inl a ↦ rw a (sym (count_cps-ascii (length s) s (omega arith) a))
  | inr wide ↦ rw wide refl
]

append_backwards-ascii :
    (fuel : ℕ) (s after : Bytes)
    → length s ≤ fuel
    → str_is_ascii s ≡ true
    → append_backwards (spans fuel s) after ≡ reverse s ++ after
unfolding append_backwards spans
append_backwards-ascii zero [] after h a = refl
append_backwards-ascii zero (b ∷ bs) after h a = elim (too_long h) [ ]
  where
    too_long : ¬ (suc (length bs) ≤ 0)
    too_long = omega arith
append_backwards-ascii (suc fuel) [] after h a = refl
append_backwards-ascii (suc fuel) (b ∷ bs) after h a =
    let (one, rest) = ascii-head b bs a in
    rw one (append_backwards-ascii fuel bs (b ∷ after) (omega (arith, h)) rest ∙ join)
  where
    join : reverse bs ++ (b ∷ after) ≡ reverse (b ∷ bs) ++ after
    join = sym (ap (λ l. l ++ after) (reverse-cons b bs) ∙ append_assoc (reverse bs) (b ∷ []) after)

append_backwards-length :
    (fuel : ℕ) (s after : Bytes)
    → length s ≤ fuel
    → length (append_backwards (spans fuel s) after) ≡ length s + length after
unfolding append_backwards spans
append_backwards-length zero [] after h = omega arith
append_backwards-length zero (b ∷ bs) after h = omega (arith, h)
append_backwards-length (suc fuel) [] after h = omega arith
append_backwards-length (suc fuel) (b ∷ bs) after h =
    let s = b ∷ bs in
    let k = step_len s in
    let (lo, hi) = step_len-bounds b bs in
    omega (
      arith,
      lo,
      hi,
      h,
      length-drop k s,
      length-take k s,
      length-append (take k s) after,
      append_backwards-length fuel (drop k s) (take k s ++ after)
          (omega (arith, length-drop k s, lo, hi, h)),
    )

take_cps-skip_cps : (n : ℕ) (s : Bytes) → take_cps n s ++ skip_cps n s ≡ s
unfolding take_cps skip_cps
take_cps-skip_cps zero s = refl
take_cps-skip_cps (suc n) [] = refl
take_cps-skip_cps (suc n) (b ∷ bs) =
    let s = b ∷ bs in
    let k = step_len s in
    append_assoc (take k s) (take_cps n (drop k s)) (skip_cps n (drop k s))
    ∙ ap (λ l. take k s ++ l) (take_cps-skip_cps n (drop k s))
    ∙ take-drop k s

-- Enough code points take the whole string.
take_cps-all : (n : ℕ) (s : Bytes) → length s ≤ n → take_cps n s ≡ s
unfolding take_cps
take_cps-all zero [] h = refl
take_cps-all zero (b ∷ bs) h = elim (too_long h) [ ]
  where
    too_long : ¬ (suc (length bs) ≤ 0)
    too_long = omega arith
take_cps-all (suc n) [] h = refl
take_cps-all (suc n) (b ∷ bs) h =
    let s = b ∷ bs in
    let k = step_len s in
    let (lo, hi) = step_len-bounds b bs in
    ap (λ l. take k s ++ l) (take_cps-all n (drop k s) (omega (arith, length-drop k s, lo, hi, h)))
    ∙ take-drop k s

-- On an ASCII string REVERSE is the reversed list, which is what its two passes over code points give;
-- on every string it keeps the length.
pub snobol_reverse_lem :
    (s : Bytes)
    → (snobol_reverse s ≡ append_backwards (spans (length s) s) [])
      × (length (snobol_reverse s) ≡ length s)
unfolding snobol_reverse
snobol_reverse_lem s =
    let same = by_path s in
    (same, ap length same ∙ append_backwards-length (length s) s [] (omega arith) ∙ omega arith)
  where
    by_path : (s : Bytes) → snobol_reverse s ≡ append_backwards (spans (length s) s) []
    by_path s = elim (Bool-cases (str_is_ascii s)) [
      | inl a ↦
          rw a
            (sym (append_backwards-ascii (length s) s [] (omega arith) a ∙ append-nil (reverse s)))
      | inr wide ↦ rw wide refl
    ]

skip_cps-length : (n : ℕ) (s : Bytes) → length (skip_cps n s) ≤ length s
unfolding skip_cps
skip_cps-length zero s = omega arith
skip_cps-length (suc n) [] = omega arith
skip_cps-length (suc n) (b ∷ bs) =
    let k = step_len (b ∷ bs) in
    omega (arith, skip_cps-length n (drop k (b ∷ bs)), length-drop k (b ∷ bs))

substr_when :
    (p q : Bool) (x a : Bytes) → (if p then none else if q then none else some x) ≡ some a → a ≡ x
substr_when true q x a h = elim (none_some h) [ ]
  where
    none_some : ¬ (none ≡ some a)
    none_some = λ e. cc
substr_when false true x a h = elim (none_some h) [ ]
  where
    none_some : ¬ (none ≡ some a)
    none_some = λ e. cc
substr_when false false x a h = injective (sym h)
  where
    injective : some a ≡ some x → a ≡ x
    injective = λ e. cc

snobol_substr-some :
    (s : Bytes) (pos len : ℕ) {a : Bytes}
    → snobol_substr s pos len ≡ some a
    → a ≡ take_cps len (skip_cps (pos - 1) s)
unfolding snobol_substr
snobol_substr-some s pos len {a} h =
    substr_when (pos == 0) ((length (skip_cps (pos - 1) s) == 0) && ltb 1 pos) _ a h

-- Where SUBSTR finds both, the first `n` code points and those from the next one on make up the string.
pub snobol_substr_lem :
    (s : Bytes) (n : ℕ) {a b : Bytes}
    → snobol_substr s 1 n ≡ some a
    → snobol_substr s (n + 1) (length s) ≡ some b
    → a ++ b ≡ s
unfolding skip_cps
snobol_substr_lem s n {a = a} {b = b} first later =
    let left : a ≡ take_cps n s = snobol_substr-some s 1 n first in
    let right : b ≡ take_cps (length s) (skip_cps (n + 1 - 1) s) =
      snobol_substr-some s (n + 1) (length s) later in
    let back : n + 1 - 1 ≡ n = omega arith in
    let all : take_cps (length s) (skip_cps n s) ≡ skip_cps n s =
      take_cps-all (length s) (skip_cps n s) (skip_cps-length n s) in
    ap (λ l. l ++ b) left
    ∙ ap (λ l. take_cps n s ++ l) (right ∙ ap (λ m. take_cps (length s) (skip_cps m s)) back ∙ all)
    ∙ take_cps-skip_cps n s
