-- ===== src/Vm/SingleByte.antt =====
-- The `memchr` path of OP_BREAK in core/src/vm_exec.c, for a class of one ASCII byte.
mod Words
use libsnobol.Base.{
  ℕ, some, ◌-◌, ◌≢◌, zero, suc, ◌+◌, ◌≤◌, ◌<◌, ◌≡◌, refl, sym, subst, ◌∙◌, Bool, true, false, not,
  ◌&&◌, arith, ltb, leb, ◌==◌, length, Bool-cases, inl, inr,
}
use libsnobol.Vm.Bytes.{Bytes, at}
use libsnobol.Vm.Classes.{
  Bitmap, none_set, minus_one, and_minus_one, ctz, high_word, is_power, bitmap_single_ascii_byte,
  bitmap_test,
}
use libsnobol.Vm.Cursor.{find_byte, scan_bytes}
use libsnobol.Vm.Handlers.Matching.{break_ascii}
use libsnobol.Vm.SingleByte.Words.{clash, none_set-below, both_true, IsOnly, power-IsOnly}

low-IsOnly :
    (map : Bitmap) (c : ℕ) → none_set 64 (high_word map) ≡ true → IsOnly 64 map c → IsOnly 128 map c
low-IsOnly map c none_high only = record {
  set_there = only.set_there;
  below = omega (arith, only.below);
  no_other = λ b h on. elim (Bool-cases (ltb b 64)) [
    | inl low ↦ only.no_other b (ground (arith, low)) on
    | inr high ↦
        elim (clash (
          sym (none_set-below 64 (high_word map) (b - 64) none_high (ground (arith, high, h)))
          ∙ subst (λ i. map i ≡ true) (ground (arith, high)) on)) [ ]
  ];
}

high-IsOnly :
    (map : Bitmap) (c : ℕ)
    → none_set 64 map ≡ true
    → IsOnly 64 (high_word map) c
    → IsOnly 128 map (64 + c)
high-IsOnly map c none_low only = record {
  set_there = only.set_there;
  below = omega (arith, only.below);
  no_other = λ b h on. elim (Bool-cases (ltb b 64)) [
    | inl low ↦ elim (clash (sym (none_set-below 64 map b none_low (ground (arith, low))) ∙ on)) [ ]
    | inr high ↦
        let same =
          only.no_other (b - 64) (ground (arith, high, h))
            (subst (λ i. map i ≡ true) (ground (arith, high)) on) in
        ground (arith, same, high)
  ];
}

-- a bitmap with one ASCII bit tests for that byte
single-test : (map : Bitmap) (c b : ℕ) → IsOnly 128 map c → not (bitmap_test map b) ≡ not (b == c)
unfolding bitmap_test
single-test map c b only = elim (Bool-cases (ltb 127 b)) [
  | inl high ↦
      let differ : (b == c) ≡ false = ground (arith, high, only.below) in rw (high, differ) refl
  | inr low ↦ elim (Bool-cases (map b)) [
    | inr off ↦
        let differ : (b == c) ≡ false = elim (Bool-cases (b == c)) [
          | inr d ↦ d
          | inl same ↦
              elim (clash
                (sym off ∙ subst (λ j. map j ≡ true) (ground (arith, same)) only.set_there)) [ ]
        ] in
        rw (low, off, differ) refl
    | inl on ↦
        let same : b ≡ c = only.no_other b (ground (arith, low)) on in
        let test : (b == c) ≡ true = ground (arith, same) in rw (low, on, test) refl
  ]
]

find_byte-scan_bytes :
    (fuel c : ℕ) (test : ℕ → Bool) (s : Bytes) (pos : ℕ)
    → ((b : ℕ) → test b ≡ not (b == c))
    → pos ≤ length s
    → length s ≤ pos + fuel
    → find_byte fuel c s pos ≡ scan_bytes fuel test s pos
unfolding find_byte scan_bytes
find_byte-scan_bytes zero c test s pos t h k = omega (arith, h, k)
find_byte-scan_bytes (suc fuel) c test s pos t h k = elim (Bool-cases (leb (length s) pos)) [
  | inl end ↦
      let stop : ltb pos (length s) ≡ false = ground (arith, end) in
      rw (end, stop) (ground (arith, end, h))
  | inr more ↦
      let go : ltb pos (length s) ≡ true = ground (arith, more) in
      elim (Bool-cases (at s pos == c)) [
        | inl hit ↦ rw (more, go, t (at s pos), hit) refl
        | inr miss ↦
            rw (more, go, t (at s pos), miss)
              (find_byte-scan_bytes fuel c test s (pos + 1) t (ground (arith, more))
                (omega (arith, k)))
      ]
]

-- the `memchr` path for the one byte of a bitmap
only-scan_bytes :
    (map : Bitmap) (s : Bytes) (pos c : ℕ)
    → IsOnly 128 map c
    → pos ≤ length s
    → break_ascii (some c) map s pos ≡ scan_bytes (length s) (λ c. not (bitmap_test map c)) s pos
unfolding break_ascii
only-scan_bytes map s pos c only h = elim (Bool-cases (ltb pos (length s))) [
  | inl more ↦ rw more (
      find_byte-scan_bytes (length s) c (λ b. not (bitmap_test map b)) s pos
        (λ b. single-test map c b only) h (omega arith))
  | inr end ↦ rw end refl
]

-- Within the subject, the `memchr` path that OP_BREAK takes for a class of one ASCII byte stops where
-- the walk by the bitmap does.
pub break_ascii-scan_bytes :
    (map : Bitmap) (s : Bytes) (pos : ℕ)
    → pos ≤ length s
    → break_ascii (bitmap_single_ascii_byte map) map s pos
      ≡ scan_bytes (length s) (λ c. not (bitmap_test map c)) s pos
unfolding bitmap_single_ascii_byte break_ascii
break_ascii-scan_bytes map s pos h =
    elim (Bool-cases (none_set 64 (high_word map) && is_power map)) [
      | inl low ↦
          let (none_high, power) = both_true _ _ low in
          rw low
            (only-scan_bytes map s pos _ (low-IsOnly map _ none_high (power-IsOnly map power)) h)
      | inr other ↦ rw other (elim (Bool-cases (none_set 64 map && is_power (high_word map))) [
        | inl high ↦
            let (none_low, power) = both_true _ _ high in
            rw high (
              only-scan_bytes map s pos _
                (high-IsOnly map _ none_low (power-IsOnly (high_word map) power)) h)
        | inr neither ↦ rw neither refl
      ])
    ]
