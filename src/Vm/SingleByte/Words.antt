-- ===== src/Vm/SingleByte/Words.antt =====
-- The bits of a word behind `bitmap_single_ascii_byte` of core/src/vm_exec.c: zero, `x & (x - 1)` and
-- `snobol_ctz64`.
use libsnobol.Base.{
  ℕ, ◌≢◌, zero, suc, ◌+◌, ◌≤◌, ◌<◌, ◌≡◌, refl, sym, subst, ◌∙◌, Bool, true, false, not, ◌&&◌, arith,
  ◌==◌, Bool-cases, inl, inr,
}
use libsnobol.Vm.Classes.{Bitmap, none_set, minus_one, and_minus_one, ctz, is_power}

pub clash : false ≢ true
clash = λ q. cc

pub none_set-below : (n : ℕ) (x : Bitmap) (k : ℕ) → none_set n x ≡ true → k < n → x k ≡ false
unfolding none_set
none_set-below zero x k e h = elim (none_below h) [ ]
  where
    none_below : ¬ (k < 0)
    none_below = omega arith
none_set-below (suc n) x k e h = elim (Bool-cases (x n)) [
  | inl on ↦ elim (clash (subst (λ b. (not b && none_set n x) ≡ true) on e)) [ ]
  | inr off ↦
      let rest : none_set n x ≡ true = subst (λ b. (not b && none_set n x) ≡ true) off e in
      elim (Bool-cases (k == n)) [
        | inl same ↦ subst (λ j. x j ≡ false) (sym (ground (arith, same))) off
        | inr other ↦ none_set-below n x k rest (ground (arith, other, h))
      ]
]

some_set : (n : ℕ) (x : Bitmap) (k : ℕ) → k < n → x k ≡ true → none_set n x ≡ false
some_set n x k h on = elim (Bool-cases (none_set n x)) [
  | inr e ↦ e
  | inl e ↦ elim (clash (sym (none_set-below n x k e h) ∙ on)) [ ]
]

-- the bit that `ctz` finds, where there is one
ctz-lowest :
    (n : ℕ) (x : Bitmap) (k j : ℕ)
    → x j ≡ true
    → k ≤ j
    → j < k + n
    → (k + ctz n x k ≤ j) × (x (k + ctz n x k) ≡ true)
unfolding ctz
ctz-lowest zero x k j on lo hi = elim (none_left lo hi) [ ]
  where
    none_left : k ≤ j → ¬ (j < k + 0)
    none_left = λ lo hi. omega (arith, lo, hi)
ctz-lowest (suc n) x k j on lo hi = elim (Bool-cases (x k)) [
  | inl here ↦ rw here (omega (arith, lo), subst (λ i. x i ≡ true) (omega arith) here)
  | inr off ↦
      let later : k < j = elim (Bool-cases (k == j)) [
        | inl same ↦ elim (clash (sym off ∙ subst (λ i. x i ≡ true) (ground (arith, same)) on)) [ ]
        | inr other ↦ ground (arith, other, lo)
      ] in
      let (least, set_) = ctz-lowest n x (k + 1) j on (omega (arith, later)) (omega (arith, hi)) in
      rw off (omega (arith, least), subst (λ i. x i ≡ true) (omega arith) set_)
]

-- a bit with a lower one stays in `x & (x - 1)`
and_minus_one-kept :
    (x : Bitmap) (c k : ℕ) → x c ≡ true → c < k → x k ≡ true → and_minus_one x k ≡ true
unfolding and_minus_one minus_one
and_minus_one-kept x c k low h on = rw (some_set k x c h low, on) refl

found : (n : ℕ) (x : Bitmap) → none_set n x ≡ false → (j : ℕ) × (j < n) × (x j ≡ true)
unfolding none_set
found zero x e = elim (clash (sym e)) [ ]
found (suc n) x e = elim (Bool-cases (x n)) [
  | inl on ↦ (n, omega arith, on)
  | inr off ↦
      let (j, h, on) = found n x (subst (λ b. (not b && none_set n x) ≡ false) off e) in
      (j, omega (arith, h), on)
]

-- the bit `c` is set, and no other below `n`
pub record IsOnly (n : ℕ) (x : Bitmap) (c : ℕ) : Type 0 where
  pub set_there : x c ≡ true
  pub below : c < n
  pub no_other : (b : ℕ) → b < n → x b ≡ true → b ≡ c

word-IsOnly :
    (x : Bitmap)
    → none_set 64 x ≡ false
    → none_set 64 (and_minus_one x) ≡ true
    → IsOnly 64 x (ctz 64 x 0)
word-IsOnly x some_bit one_bit =
    let (j, h, on) = found 64 x some_bit in
    let (least, set_) = ctz-lowest 64 x 0 j on (omega arith) (omega (arith, h)) in
    record {
      set_there = subst (λ i. x i ≡ true) (omega arith) set_;
      below = omega (arith, least, h);
      no_other = λ b hb on_b.
          let (le, _) = ctz-lowest 64 x 0 b on_b (omega arith) (omega (arith, hb)) in
          elim (Bool-cases (b == ctz 64 x 0)) [
            | inl same ↦ ground (arith, same)
            | inr other ↦
                elim (clash (
                  sym (none_set-below 64 (and_minus_one x) b one_bit hb)
                  ∙ and_minus_one-kept x (ctz 64 x 0) b (subst (λ i. x i ≡ true) (omega arith) set_)
                      (ground (arith, other, le)) on_b)) [ ]
          ];
    }

pub both_true : (b c : Bool) → (b && c) ≡ true → (b ≡ true) × (c ≡ true)
both_true true c e = (refl, e)
both_true false c e = elim (clash e) [ ]

pub power-IsOnly : (x : Bitmap) → is_power x ≡ true → IsOnly 64 x (ctz 64 x 0)
power-IsOnly x e =
    let (some_bit, one_bit) = both_true (not (none_set 64 x)) (none_set 64 (and_minus_one x)) e in
    word-IsOnly x (ground (arith, some_bit)) one_bit
