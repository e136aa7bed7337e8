-- ===== src/Types/Numeric.antt =====
-- INTEGER and NUMERIC of core/src/type_fn.c.
use libsnobol.Base.{
  ℕ, ◌≡◌, ◌↔◌, refl, ap, sym, ◌∙◌, Bool, true, false, ◌&&◌, ◌||◌, [], ◌∷◌, arith, ltb,
  if◌then◌else◌, length, Bool-cases, inl, inr,
}
use libsnobol.Types.{
  is_digit, is_sign, skip_digits, skip_if, starts_with, at_end, snobol_integer, snobol_real,
  snobol_numeric, skip_fraction, ends_with_exponent,
}
use libsnobol.Vm.Bytes.{Bytes}

-- a digit and more digits
pub data IsDigits : Bytes → Type 0 where
  last : (c : ℕ) → is_digit c ≡ true → IsDigits (c ∷ [])
  more : (c : ℕ) (s : Bytes) → is_digit c ≡ true → IsDigits s → IsDigits (c ∷ s)

-- an optional sign and digits
pub data IsInteger : Bytes → Type 0 where
  unsigned : (s : Bytes) → IsDigits s → IsInteger s
  signed : (c : ℕ) (s : Bytes) → is_sign c ≡ true → IsDigits s → IsInteger (c ∷ s)

clash : ¬ (false ≡ true)
clash = λ q. cc

skip-digits : (s : Bytes) → IsDigits s → (skip_digits s ≡ []) × (at_end s ≡ false)
unfolding skip_digits
skip-digits _ (IsDigits.last c d) = (rw d refl, refl)
skip-digits _ (IsDigits.more c s d ds) = (rw d (skip-digits s ds).0, refl)

at_end-nil : (s : Bytes) → at_end s ≡ true → s ≡ []
at_end-nil [] h = refl
at_end-nil (c ∷ s) h = elim (clash h) [ ]

-- one round of the loop over the digits
passed : (b : Bool) (c : ℕ) (s r : Bytes) → (if b then r else c ∷ s) ≡ [] → (b ≡ true) × (r ≡ [])
passed true c s r h = (refl, h)
passed false c s r h = elim (cons_nil h) [ ]
  where
    cons_nil : ¬ ((c ∷ s) ≡ [])
    cons_nil = λ p. cc

skipped-IsDigits : (c : ℕ) (s : Bytes) → skip_digits (c ∷ s) ≡ [] → IsDigits (c ∷ s)
unfolding skip_digits
skipped-IsDigits c [] h = IsDigits.last c (passed (is_digit c) c [] [] h).0
skipped-IsDigits c (e ∷ s) h =
    let (d, rest) = passed (is_digit c) c (e ∷ s) (skip_digits (e ∷ s)) h in
    IsDigits.more c (e ∷ s) d (skipped-IsDigits e s rest)

-- the test of INTEGER behind the sign
abbrev judge : Bytes → Bool
judge r =
    if at_end r then false else at_end (skip_digits r) && ltb (length (skip_digits r)) (length r)

and-left : (a b : Bool) → (a && b) ≡ true → a ≡ true
and-left true b h = refl
and-left false b h = h

judge-IsDigits : (r : Bytes) → judge r ≡ true → IsDigits r
judge-IsDigits [] h = elim (clash h) [ ]
judge-IsDigits (c ∷ s) h =
    skipped-IsDigits c s
      (at_end-nil (skip_digits (c ∷ s)) (and-left (at_end (skip_digits (c ∷ s))) _ h))

IsDigits-judge : (r : Bytes) → IsDigits r → judge r ≡ true
IsDigits-judge [] d = elim d [ ]
IsDigits-judge (c ∷ s) d = let (gone, _) = skip-digits (c ∷ s) d in rw gone (ground arith)

-- a digit is no sign
digits-unsigned : (c : ℕ) (s : Bytes) → IsDigits (c ∷ s) → is_sign c ≡ false
digits-unsigned _ _ (IsDigits.last c d) = ground (arith, d)
digits-unsigned _ _ (IsDigits.more c s d ds) = ground (arith, d)

integer-cons : (c : ℕ) (s : Bytes) → snobol_integer (c ∷ s) ≡ judge (if is_sign c then s else c ∷ s)
unfolding snobol_integer skip_if
integer-cons c s = refl

accepted-IsInteger : (s : Bytes) → snobol_integer s ≡ true → IsInteger s
unfolding snobol_integer
accepted-IsInteger [] h = elim (clash h) [ ]
accepted-IsInteger (c ∷ s) h = by_sign (is_sign c) refl (sym (integer-cons c s) ∙ h)
  where
    by_sign : (b : Bool) → is_sign c ≡ b → judge (if b then s else c ∷ s) ≡ true → IsInteger (c ∷ s)
    by_sign true e j = IsInteger.signed c s e (judge-IsDigits s j)
    by_sign false e j = IsInteger.unsigned (c ∷ s) (judge-IsDigits (c ∷ s) j)

IsInteger-integer : (s : Bytes) → IsInteger s → snobol_integer s ≡ true
IsInteger-integer [] (IsInteger.unsigned _ d) = elim d [ ]
IsInteger-integer (c ∷ s) (IsInteger.unsigned _ d) =
    integer-cons c s
    ∙ ap (λ b. judge (if b then s else c ∷ s)) (digits-unsigned c s d)
    ∙ IsDigits-judge (c ∷ s) d
IsInteger-integer _ (IsInteger.signed c s e d) =
    integer-cons c s ∙ ap (λ b. judge (if b then s else c ∷ s)) e ∙ IsDigits-judge s d

-- INTEGER succeeds exactly on an optional sign with at least one digit behind it.
pub snobol_integer_iff : (s : Bytes) → (snobol_integer s ≡ true) ↔ IsInteger s
snobol_integer_iff s = (accepted-IsInteger s, IsInteger-integer s)

-- the tests of REAL behind the sign
abbrev judge_real : Bytes → Bool
judge_real r =
    if starts_with is_digit r then ends_with_exponent (skip_fraction (skip_digits r)) else false

digits-start : (s : Bytes) → IsDigits s → starts_with is_digit s ≡ true
digits-start _ (IsDigits.last c d) = d
digits-start _ (IsDigits.more c s d ds) = d

IsDigits-judge_real : (r : Bytes) → IsDigits r → judge_real r ≡ true
unfolding ends_with_exponent skip_fraction
IsDigits-judge_real r d =
    let (gone, _) = skip-digits r d in
    ap (λ b. if b then ends_with_exponent (skip_fraction (skip_digits r)) else false)
      (digits-start r d)
    ∙ ap (λ x. ends_with_exponent (skip_fraction x)) gone
    ∙ nothing_left
  where
    nothing_left : ends_with_exponent (skip_fraction []) ≡ true
    nothing_left = refl

real-cons : (c : ℕ) (s : Bytes) → snobol_real (c ∷ s) ≡ judge_real (if is_sign c then s else c ∷ s)
unfolding snobol_real skip_if
real-cons c s = refl

IsInteger-real : (s : Bytes) → IsInteger s → snobol_real s ≡ true
IsInteger-real [] (IsInteger.unsigned _ d) = elim d [ ]
IsInteger-real (c ∷ s) (IsInteger.unsigned _ d) =
    real-cons c s
    ∙ ap (λ b. judge_real (if b then s else c ∷ s)) (digits-unsigned c s d)
    ∙ IsDigits-judge_real (c ∷ s) d
IsInteger-real _ (IsInteger.signed c s e d) =
    real-cons c s ∙ ap (λ b. judge_real (if b then s else c ∷ s)) e ∙ IsDigits-judge_real s d

-- Every integer is a real, so that NUMERIC is REAL.
pub snobol_numeric-snobol_real : (s : Bytes) → snobol_numeric s ≡ snobol_real s
unfolding snobol_numeric
snobol_numeric-snobol_real s = elim (Bool-cases (snobol_integer s)) [
  | inr other ↦ ap (λ b. b || snobol_real s) other
  | inl whole ↦
      ap (λ b. b || snobol_real s) whole ∙ sym (IsInteger-real s (accepted-IsInteger s whole))
]
