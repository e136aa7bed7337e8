-- ===== src/Compiler/Correct/Layout.antt =====
-- Code that stands at a position of the bytecode, and what the operand reads of
-- core/include/snobol/vm.h give there.
use libsnobol.Base.{
  ℕ, ◌+◌, ◌%◌, ◌^◌, ◌<◌, ◌≤◌, ◌≡◌, refl, ap, sym, ◌∙◌, subst, [], ◌∷◌, ◌++◌, arith, length,
  length-append, ltb, false,
}
use mathlib.Core.List.{append_assoc}
use libsnobol.Compiler.Code.{u16_bytes, u32_bytes}
use libsnobol.Vm.Bytes.{Bytes, at, read_u8, read_u16, read_u32}

-- `xs` stands at position `q` of `bc`.
pub record Sits (bc : Bytes) (q : ℕ) (xs : Bytes) : Type 0 where
  pub before : Bytes
  pub behind : Bytes
  pub whole : bc ≡ before ++ (xs ++ behind)
  pub offset : length before ≡ q

pub Sits-left : {bc : Bytes} {q : ℕ} (xs ys : Bytes) → Sits bc q (xs ++ ys) → Sits bc q xs
Sits-left xs ys h = record {
  before = h.before;
  behind = ys ++ h.behind;
  whole = h.whole ∙ ap (λ t. h.before ++ t) (append_assoc xs ys h.behind);
  offset = h.offset;
}

pub Sits-right :
    {bc : Bytes} {q : ℕ} (xs ys : Bytes) → Sits bc q (xs ++ ys) → Sits bc (q + length xs) ys
Sits-right xs ys h = record {
  before = h.before ++ xs;
  behind = h.behind;
  whole =
      h.whole
      ∙ ap (λ t. h.before ++ t) (append_assoc xs ys h.behind)
      ∙ sym (append_assoc h.before xs (ys ++ h.behind));
  offset = omega (arith, length-append h.before xs, h.offset);
}

at-append : (xs : Bytes) (b : ℕ) (ys : Bytes) → at (xs ++ b ∷ ys) (length xs) ≡ b
at-append [] b ys = refl
at-append (x ∷ xs) b ys = at-append xs b ys

pub at-Sits : {bc : Bytes} {q b : ℕ} {xs : Bytes} → Sits bc q (b ∷ xs) → at bc q ≡ b
at-Sits {bc} {q} {b} {xs} h =
    ap (λ t. at t q) h.whole
    ∙ ap (at (h.before ++ b ∷ (xs ++ h.behind))) (sym h.offset)
    ∙ at-append h.before b (xs ++ h.behind)

pub Sits-bound : {bc : Bytes} {q : ℕ} (xs : Bytes) → Sits bc q xs → q + length xs ≤ length bc
Sits-bound xs h = omega (
  arith,
  ap length h.whole,
  length-append h.before (xs ++ h.behind),
  length-append xs h.behind,
  h.offset,
)

pub Sits-tail : {bc : Bytes} {q b : ℕ} (xs : Bytes) → Sits bc q (b ∷ xs) → Sits bc (q + 1) xs
Sits-tail {bc} {q} {b} xs h = Sits-right (b ∷ []) xs h

pub read_u8-Sits :
    {bc : Bytes} {q b : ℕ} {xs : Bytes} → Sits bc q (b ∷ xs) → read_u8 bc q ≡ (b, q + 1)
unfolding read_u8
read_u8-Sits {bc} {q} {b} {xs} h =
    let inside : ltb (length bc) (q + 1) ≡ false = ground (arith, Sits-bound (b ∷ xs) h) in
    rw (inside, at-Sits h) refl

pub read_u16-Sits :
    {bc : Bytes} {q : ℕ} (v : ℕ) (xs : Bytes)
    → Sits bc q (u16_bytes v ++ xs)
    → read_u16 bc q ≡ (v % 65536, q + 2)
unfolding read_u16
read_u16-Sits {bc} {q} v xs h =
    let inside : ltb (length bc) (q + 2) ≡ false =
      ground (arith, Sits-bound (u16_bytes v ++ xs) h) in
    let h1 = Sits-tail _ h in rw (inside, at-Sits h, at-Sits h1) (ground arith)

pub moved : {bc : Bytes} {q : ℕ} {xs : Bytes} (q' : ℕ) → q ≡ q' → Sits bc q xs → Sits bc q' xs
moved {bc} {q} {xs} q' e h = subst (λ t. Sits bc t xs) e h

pub read_u32-Sits :
    {bc : Bytes} {q : ℕ} (v : ℕ) (xs : Bytes)
    → v < 2 ^ 32
    → Sits bc q (u32_bytes v ++ xs)
    → read_u32 bc q ≡ (v, q + 4)
unfolding read_u32
read_u32-Sits {bc} {q} v xs bound h =
    let inside : ltb (length bc) (q + 4) ≡ false =
      ground (arith, Sits-bound (u32_bytes v ++ xs) h) in
    let h2 = moved (q + 2) (omega arith) (Sits-tail _ (Sits-tail _ h)) in
    let h3 = moved (q + 3) (omega arith) (Sits-tail _ h2) in
    rw (inside, at-Sits h, at-Sits (Sits-tail _ h), at-Sits h2, at-Sits h3) (ground arith)
