-- ===== src/Strings/Encoding.antt =====
-- `snobol_char_fn` and `snobol_ord` of core/src/string_fn.c are inverse on Unicode scalar values.
use libsnobol.Base.{
  ℕ, ◌+◌, ◌*◌, ◌/◌, ◌%◌, ◌≤◌, ◌<◌, ◌≡◌, refl, ◌∙◌, false, ◌&&◌, [], ◌∷◌, ◌++◌, some, arith, ltb,
  leb, length, Bool-cases, inl, inr, ◌⊎◌,
}
use libsnobol.Strings.{encode_utf8, snobol_char, snobol_ord, utf8_cp_len, step_len}
use libsnobol.Vm.Bytes.{Bytes}

-- a code point that is not past U+10FFFF and no surrogate
abbrev pub IsScalar : ℕ → Type 0
IsScalar cp = (cp ≤ 1114111) × ((cp < 55296) ⊎ (57343 < cp))

-- the parts that the four lengths of an encoding are made of
pub data Encoded (cp : ℕ) : Bytes → Type 0 where
  one : cp < 128 → Encoded cp (cp ∷ [])
  two :
      (a b : ℕ)
      → cp ≡ a * 64 + b
      → b < 64
      → 2 ≤ a
      → a < 32
      → Encoded cp ((192 + a) ∷ (128 + b) ∷ [])
  three :
      (a b c : ℕ)
      → cp ≡ a * 4096 + b * 64 + c
      → b < 64
      → c < 64
      → a < 16
      → Encoded cp ((224 + a) ∷ (128 + b) ∷ (128 + c) ∷ [])
  four :
      (a b c d : ℕ)
      → cp ≡ a * 262144 + b * 4096 + c * 64 + d
      → b < 64
      → c < 64
      → d < 64
      → a < 8
      → Encoded cp ((240 + a) ∷ (128 + b) ∷ (128 + c) ∷ (128 + d) ∷ [])

pub encode_utf8-Encoded :
    (cp : ℕ) → IsScalar cp → (e : Bytes) × (encode_utf8 cp ≡ some e) × Encoded cp e
unfolding encode_utf8
encode_utf8-Encoded cp (top, gap) =
    let low : ltb 1114111 cp ≡ false = ground (arith, top) in
    let clear : (leb 55296 cp && leb cp 57343) ≡ false = ground (arith, gap) in
    elim (Bool-cases (ltb cp 128)) [
      | inl h ↦ (_, rw (low, clear, h) refl, Encoded.one (ground (arith, h)))
      | inr h1 ↦ elim (Bool-cases (ltb cp 2048)) [
        | inl h ↦ (
          _,
          rw (low, clear, h1, h) refl,
          Encoded.two (cp / 64) (cp % 64) (omega arith) (omega arith) (ground (arith, h1))
              (ground (arith, h)),
        )
        | inr h2 ↦ elim (Bool-cases (ltb cp 65536)) [
          | inl h ↦ (
            _,
            rw (low, clear, h1, h2, h) refl,
            Encoded.three (cp / 4096) (cp / 64 % 64) (cp % 64) (omega arith) (omega arith)
                (omega arith) (ground (arith, h)),
          )
          | inr h3 ↦ (
            _,
            rw (low, clear, h1, h2, h3) refl,
            Encoded.four (cp / 262144) (cp / 4096 % 64) (cp / 64 % 64) (cp % 64) (omega arith)
                (omega arith) (omega arith) (omega arith) (omega (arith, top)),
          )
        ]
      ]
    ]

ord-Encoded : (cp : ℕ) (e : Bytes) → Encoded cp e → snobol_ord e ≡ some cp
unfolding snobol_ord
ord-Encoded cp _ (Encoded.one h) = ground (arith, h)
ord-Encoded cp _ (Encoded.two a b e hb la ha) = ground (arith, e, hb, la, ha)
ord-Encoded cp _ (Encoded.three a b c e hb hc ha) = ground (arith, e, hb, hc, ha)
ord-Encoded cp _ (Encoded.four a b c d e hb hc hd ha) = ground (arith, e, hb, hc, hd, ha)

pub step_len-Encoded : (cp : ℕ) (e rest : Bytes) → Encoded cp e → step_len (e ++ rest) ≡ length e
unfolding step_len utf8_cp_len
step_len-Encoded cp _ rest (Encoded.one h) = ground (arith, h)
step_len-Encoded cp _ rest (Encoded.two a b e hb la ha) = ground (arith, hb, la, ha)
step_len-Encoded cp _ rest (Encoded.three a b c e hb hc ha) = ground (arith, hb, hc, ha)
step_len-Encoded cp _ rest (Encoded.four a b c d e hb hc hd ha) = ground (arith, hb, hc, hd, ha)

snobol_char-encode_utf8 :
    (cp : ℕ)
    → ltb 1114111 cp ≡ false
    → (leb 55296 cp && leb cp 57343) ≡ false
    → snobol_char cp ≡ encode_utf8 cp
unfolding snobol_char encode_utf8
snobol_char-encode_utf8 cp low clear = rw (low, clear) refl

-- The bytes that CHAR writes for a Unicode scalar value are read back by ORD as that value, and one
-- step over a string that starts with them is their length.
pub snobol_ord-snobol_char :
    (cp : ℕ) (rest : Bytes)
    → IsScalar cp
    → (e : Bytes) × (snobol_char cp ≡ some e)
      × (snobol_ord e ≡ some cp)
      × (step_len (e ++ rest) ≡ length e)
snobol_ord-snobol_char cp rest (top, gap) =
    let low : ltb 1114111 cp ≡ false = ground (arith, top) in
    let clear : (leb 55296 cp && leb cp 57343) ≡ false = ground (arith, gap) in
    let (e, written, shape) = encode_utf8-Encoded cp (top, gap) in
    (
      e,
      snobol_char-encode_utf8 cp low clear ∙ written,
      ord-Encoded cp e shape,
      step_len-Encoded cp e rest shape,
    )
