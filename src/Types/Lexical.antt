-- ===== src/Types/Lexical.antt =====
-- The lexical comparison of core/src/type_fn.c decides the dictionary order, and IDENT equality.
use libsnobol.Base.{
  ℕ, suc, ◌<◌, ◌≡◌, ◌↔◌, refl, ap, sym, subst, ◌∙◌, true, false, [], ◌∷◌, arith, ltb, ◌==◌,
  if◌then◌else◌, length, min, Bool-cases, inl, inr,
}
use libsnobol.Types.{
  Sign, negative, neutral, positive, memcmp, or_lengths, snobol_lexcmp, is_neutral, snobol_ident,
}
use libsnobol.Vm.Bytes.{Bytes}

-- the dictionary order
pub data Before : Bytes → Bytes → Type 0 where
  ended : (b : ℕ) (t : Bytes) → Before [] (b ∷ t)
  smaller : (a b : ℕ) (s t : Bytes) → a < b → Before (a ∷ s) (b ∷ t)
  later : (a : ℕ) (s t : Bytes) → Before s t → Before (a ∷ s) (a ∷ t)

-- what a sign says of two strings
abbrev pub Says : Sign → Bytes → Bytes → Type 0
Says negative a b = Before a b
Says neutral a b = a ≡ b
Says positive a b = Before b a

same_head : (a : ℕ) (c : Sign) (s t : Bytes) → Says c s t → Says c (a ∷ s) (a ∷ t)
same_head a negative s t h = Before.later a s t h
same_head a neutral s t h = ap (λ l. a ∷ l) h
same_head a positive s t h = Before.later a t s h

or_lengths-suc : (r : Sign) (m n : ℕ) → or_lengths r (suc m) (suc n) ≡ or_lengths r m n
unfolding or_lengths
or_lengths-suc negative m n = refl
or_lengths-suc positive m n = refl
or_lengths-suc neutral m n = ground arith

-- the sign by the first bytes, or by what is left
abbrev by_head : ℕ → ℕ → Sign → Sign
by_head a b rest = if ltb a b then negative else if ltb b a then positive else rest

or_lengths-by_head :
    (a b : ℕ) (r : Sign) (m n : ℕ)
    → or_lengths (by_head a b r) (suc m) (suc n) ≡ by_head a b (or_lengths r m n)
unfolding or_lengths
or_lengths-by_head a b r m n = elim (Bool-cases (ltb a b)) [
  | inl less ↦ rw less refl
  | inr not_less ↦ elim (Bool-cases (ltb b a)) [
    | inl more ↦ rw (not_less, more) refl
    | inr same ↦ rw (not_less, same) (or_lengths-suc r m n)
  ]
]

lexcmp-cons :
    (a b : ℕ) (s t : Bytes) → snobol_lexcmp (a ∷ s) (b ∷ t) ≡ by_head a b (snobol_lexcmp s t)
unfolding snobol_lexcmp memcmp
lexcmp-cons a b s t =
    let m = length s in
    let n = length t in
    let e : min (suc m) (suc n) ≡ suc (min m n) = omega arith in
    ap (λ k. or_lengths (memcmp k (a ∷ s) (b ∷ t)) (suc m) (suc n)) e
    ∙ or_lengths-by_head a b (memcmp (min m n) s t) m n

lexcmp-nil_left : (b : ℕ) (t : Bytes) → snobol_lexcmp [] (b ∷ t) ≡ negative
unfolding snobol_lexcmp memcmp or_lengths
lexcmp-nil_left b t =
    let e : min 0 (suc (length t)) ≡ 0 = omega arith in
    ap (λ k. or_lengths (memcmp k [] (b ∷ t)) 0 (suc (length t))) e ∙ ground arith

lexcmp-nil_right : (a : ℕ) (s : Bytes) → snobol_lexcmp (a ∷ s) [] ≡ positive
unfolding snobol_lexcmp memcmp or_lengths
lexcmp-nil_right a s =
    let e : min (suc (length s)) 0 ≡ 0 = omega arith in
    ap (λ k. or_lengths (memcmp k (a ∷ s) []) (suc (length s)) 0) e ∙ ground arith

both_empty : Says (snobol_lexcmp [] []) [] []
unfolding snobol_lexcmp
both_empty = refl

-- The sign of the lexical comparison says that the first string comes before the second one, equals it
-- or comes after it in the dictionary order.
pub snobol_lexcmp-Says : (a b : Bytes) → Says (snobol_lexcmp a b) a b
snobol_lexcmp-Says [] [] = both_empty
snobol_lexcmp-Says [] (b ∷ t) =
    subst (λ c. Says c [] (b ∷ t)) (sym (lexcmp-nil_left b t)) (Before.ended b t)
snobol_lexcmp-Says (a ∷ s) [] =
    subst (λ c. Says c (a ∷ s) []) (sym (lexcmp-nil_right a s)) (Before.ended a s)
snobol_lexcmp-Says (a ∷ s) (b ∷ t) =
    subst (λ c. Says c (a ∷ s) (b ∷ t)) (sym (lexcmp-cons a b s t))
      (elim (Bool-cases (ltb a b)) [
        | inl less ↦ rw less (Before.smaller a b s t (ground (arith, less)))
        | inr not_less ↦ elim (Bool-cases (ltb b a)) [
          | inl more ↦ rw (not_less, more) (Before.smaller b a t s (ground (arith, more)))
          | inr not_more ↦
              let same : a ≡ b = ground (arith, not_less, not_more) in
              let rest = same_head a (snobol_lexcmp s t) s t (snobol_lexcmp-Says s t) in
              rw (not_less, not_more)
                (subst (λ x. Says (snobol_lexcmp s t) (a ∷ s) (x ∷ t)) same rest)
        ]
      ])

memcmp_self : (a : Bytes) → memcmp (length a) a a ≡ neutral
unfolding memcmp
memcmp_self [] = refl
memcmp_self (x ∷ a) = ground (arith, memcmp_self a)

memcmp-neutral : (a b : Bytes) → length a ≡ length b → memcmp (length a) a b ≡ neutral → a ≡ b
unfolding memcmp
memcmp-neutral [] [] l h = refl
memcmp-neutral [] (y ∷ b) l h = elim (none_long l) [ ]
  where
    none_long : ¬ (0 ≡ suc (length b))
    none_long = omega arith
memcmp-neutral (x ∷ a) [] l h = elim (none_long l) [ ]
  where
    none_long : ¬ (suc (length a) ≡ 0)
    none_long = omega arith
memcmp-neutral (x ∷ a) (y ∷ b) l h = elim (Bool-cases (ltb x y)) [
  | inl less ↦ elim (clash (sym (rw less refl) ∙ h)) [ ]
  | inr not_less ↦ elim (Bool-cases (ltb y x)) [
    | inl more ↦ elim (clash' (ground (arith, not_less, more, h))) [ ]
    | inr not_more ↦
        let same : x ≡ y = ground (arith, not_less, not_more) in
        let rest : memcmp (length a) a b ≡ neutral = ground (arith, not_less, not_more, h) in
        ap (λ z. z ∷ a) same ∙ ap (λ l. y ∷ l) (memcmp-neutral a b (omega (arith, l)) rest)
  ]
]
  where
    clash : ¬ (negative ≡ neutral)
    clash = λ q. cc

    clash' : ¬ (positive ≡ neutral)
    clash' = λ q. cc

neutral-sign : (c : Sign) → is_neutral c ≡ true → c ≡ neutral
neutral-sign neutral h = refl
neutral-sign negative h = elim (clash h) [ ]
  where
    clash : ¬ (false ≡ true)
    clash = λ q. cc
neutral-sign positive h = elim (clash h) [ ]
  where
    clash : ¬ (false ≡ true)
    clash = λ q. cc

ident-equal : (a b : Bytes) → snobol_ident a b ≡ true → a ≡ b
unfolding snobol_ident
ident-equal a b h = elim (Bool-cases (length a == length b)) [
  | inr differ ↦ elim (clash (ground (arith, differ, h))) [ ]
  | inl long ↦
      let l : length a ≡ length b = ground (arith, long) in
      elim (Bool-cases (length a == 0)) [
        | inl empty ↦ memcmp-neutral a b l (nothing (length a) a b (ground (arith, empty)))
        | inr full ↦
            memcmp-neutral a b l
              (neutral-sign (memcmp (length a) a b) (ground (arith, long, full, h)))
      ]
]
  where
    clash : ¬ (false ≡ true)
    clash = λ q. cc

    nothing : (n : ℕ) (a b : Bytes) → n ≡ 0 → memcmp n a b ≡ neutral
    nothing n a b e = ap (λ k. memcmp k a b) e

-- IDENT succeeds exactly on equal strings.
pub snobol_ident_iff : (a b : Bytes) → (snobol_ident a b ≡ true) ↔ (a ≡ b)
unfolding snobol_ident
snobol_ident_iff a b = (ident-equal a b, λ e. subst (λ c. snobol_ident a c ≡ true) e (itself a))
  where
    itself : (a : Bytes) → snobol_ident a a ≡ true
    itself a = ground (arith, memcmp_self a)
