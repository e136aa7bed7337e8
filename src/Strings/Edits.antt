-- ===== src/Strings/Edits.antt =====
-- TRIM, REPLACE and REPLACE_CHAR of core/src/string_fn.c.
use libsnobol.Base.{
  ℕ, zero, suc, ◌-◌, ◌≤◌, ◌<◌, ◌≡◌, ◌≢◌, refl, ap, sym, subst, ◌∙◌, true, false, [], ◌∷◌, ◌++◌,
  arith, ltb, ◌==◌, length, Bool-cases, inl, inr, ◌⊎◌, drop, take, length-drop,
}
use libsnobol.Strings.{is_space, trim_end, snobol_trim, has_prefix, replace_from, snobol_replace}
use libsnobol.Strings.CodePoints.{take-drop}
use libsnobol.Vm.Bytes.{Bytes, at}

trim_end-le : (n : ℕ) (s : Bytes) → trim_end n s ≤ n
unfolding trim_end
trim_end-le zero s = omega arith
trim_end-le (suc n) s = ground (arith, trim_end-le n s)

trim_end-spaces : (n : ℕ) (s : Bytes) (i : ℕ) → trim_end n s ≤ i → i < n → is_space (at s i) ≡ true
unfolding trim_end
trim_end-spaces zero s i h k = elim (none_below k) [ ]
  where
    none_below : ¬ (i < 0)
    none_below = omega arith
trim_end-spaces (suc n) s i h k = elim (Bool-cases (is_space (at s n))) [
  | inr stop ↦ ground (arith, stop, h, k)
  | inl go ↦ elim (Bool-cases (i == n)) [
    | inl last ↦ subst (λ j. is_space (at s j) ≡ true) (ground (arith, last)) go
    | inr before ↦ trim_end-spaces n s i (ground (arith, go, h)) (ground (arith, before, k))
  ]
]

trim_end-stop :
    (n : ℕ) (s : Bytes) → (trim_end n s ≡ 0) ⊎ (is_space (at s (trim_end n s - 1)) ≡ false)
unfolding trim_end
trim_end-stop zero s = inl refl
trim_end-stop (suc n) s = elim (Bool-cases (is_space (at s n))) [
  | inl go ↦ rw go (trim_end-stop n s)
  | inr stop ↦ rw stop (inr (subst (λ j. is_space (at s j) ≡ false) (omega arith) stop))
]

-- TRIM splits a string in two: its result, which is empty or ends in no space, tab, CR or LF, and a
-- rest in which every byte is one of them.
pub snobol_trim_lem :
    (s : Bytes)
    → (n : ℕ) × (n ≤ length s)
      × (snobol_trim s ++ drop n s ≡ s)
      × ((i : ℕ) → n ≤ i → i < length s → is_space (at s i) ≡ true)
      × ((snobol_trim s ≡ []) ⊎ (is_space (at s (n - 1)) ≡ false))
unfolding snobol_trim
snobol_trim_lem s =
    let n = trim_end (length s) s in
    (
      n,
      trim_end-le (length s) s,
      take-drop n s,
      trim_end-spaces (length s) s,
      elim (trim_end-stop (length s) s) [
        | inl none_left ↦ inl (ap (λ m. take m s) none_left)
        | inr stop ↦ inr stop
      ],
    )

-- the result of replacing from left to right, without looking at the code
pub data Replaced (from to : Bytes) : Bytes → Bytes → Type 0 where
  left : (s : Bytes) → length s < length from → Replaced from to s s
  hit : (s out : Bytes) → Replaced from to s out → Replaced from to (from ++ s) (to ++ out)
  miss :
      (b : ℕ) (s out : Bytes)
      → ((t : Bytes) → (b ∷ s) ≢ (from ++ t))
      → Replaced from to s out
      → Replaced from to (b ∷ s) (b ∷ out)

has_prefix-append : (pre t : Bytes) → has_prefix pre (pre ++ t) ≡ true
unfolding has_prefix
has_prefix-append [] t = refl
has_prefix-append (a ∷ pre) t = ground (arith, has_prefix-append pre t)

has_prefix-drop : (pre s : Bytes) → has_prefix pre s ≡ true → pre ++ drop (length pre) s ≡ s
unfolding has_prefix
has_prefix-drop [] s h = refl
has_prefix-drop (a ∷ pre) [] h = elim (clash h) [ ]
  where
    clash : ¬ (false ≡ true)
    clash = λ q. cc
has_prefix-drop (a ∷ pre) (b ∷ s) h = elim (Bool-cases (a == b)) [
  | inl eq ↦
      let tail = has_prefix-drop pre s (ground (arith, eq, h)) in
      let head : a ≡ b = ground (arith, eq) in
      ap (λ x. x ∷ (pre ++ drop (length pre) s)) head ∙ ap (λ l. b ∷ l) tail
  | inr ne ↦ elim (clash (ground (arith, ne, h))) [ ]
]
  where
    clash : ¬ (false ≡ true)
    clash = λ q. cc

no_prefix : (pre s t : Bytes) → has_prefix pre s ≡ false → s ≢ (pre ++ t)
no_prefix pre s t h e = clash (sym h ∙ ap (has_prefix pre) e ∙ has_prefix-append pre t)
  where
    clash : ¬ (false ≡ true)
    clash = λ q. cc

replace_from-Replaced :
    (fuel : ℕ) (s from to : Bytes)
    → 0 < length from
    → length s ≤ fuel
    → Replaced from to s (replace_from fuel s from to)
unfolding replace_from
replace_from-Replaced zero [] from to h k = Replaced.left [] h
replace_from-Replaced zero (b ∷ s) from to h k = elim (too_long k) [ ]
  where
    too_long : ¬ (suc (length s) ≤ 0)
    too_long = omega arith
replace_from-Replaced (suc fuel) [] from to h k = Replaced.left [] h
replace_from-Replaced (suc fuel) (b ∷ s) from to h k =
    elim (Bool-cases (ltb (length (b ∷ s)) (length from))) [
      | inl short ↦ rw short (Replaced.left (b ∷ s) (ground (arith, short)))
      | inr long ↦ elim (Bool-cases (has_prefix from (b ∷ s))) [
        | inl there ↦
            let rest = drop (length from) (b ∷ s) in
            let after =
              replace_from-Replaced fuel rest from to h
                (omega (arith, length-drop (length from) (b ∷ s), h, k)) in
            rw (long, there)
              (subst (λ x. Replaced from to x (to ++ replace_from fuel rest from to))
                (has_prefix-drop from (b ∷ s) there) (Replaced.hit rest _ after))
        | inr absent ↦
            rw (long, absent)
              (Replaced.miss b s _ (λ t. no_prefix from (b ∷ s) t absent)
                (replace_from-Replaced fuel s from to h (omega (arith, k))))
      ]
    ]

-- With something to look for, REPLACE gives the result of replacing its occurrences from left to right,
-- going on behind each one that it replaced.
pub snobol_replace-Replaced :
    (s from to : Bytes) → 0 < length from → Replaced from to s (snobol_replace s from to)
unfolding snobol_replace
snobol_replace-Replaced s from to h =
    let some_from : (length from == 0) ≡ false = ground (arith, h) in
    rw some_from (replace_from-Replaced (length s) s from to h (omega arith))
