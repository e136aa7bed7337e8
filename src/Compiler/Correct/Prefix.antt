-- ===== src/Compiler/Correct/Prefix.antt =====
-- The test of OP_LIT in core/src/vm_exec.c, a bound and a `memcmp`, is the test for a prefix.
use libsnobol.Base.{
  ℕ, suc, zero, ◌+◌, ◌-◌, ◌≤◌, ◌<◌, ◌≡◌, refl, ap, ◌∙◌, Bool, true, false, ◌&&◌, [], ◌∷◌, arith,
  length, if◌then◌else◌, leb, ltb, ◌==◌, drop, Bool-cases, inl, inr,
}
use libsnobol.Compiler.Correct.Layout.{Sits, at-Sits, Sits-tail}
use libsnobol.Strings.{has_prefix}
use libsnobol.Vm.Bytes.{Bytes, at}
use libsnobol.Vm.Handlers.Matching.{same_bytes}

drop-at : (s : Bytes) (p : ℕ) → p < length s → drop p s ≡ at s p ∷ drop (suc p) s
drop-at [] p h = absurd (omega (arith, h))
drop-at (x ∷ s) zero h = refl
drop-at (x ∷ s) (suc p) h = drop-at s p (omega (arith, h))

drop-beyond : (s : Bytes) (p : ℕ) → length s ≤ p → drop p s ≡ []
drop-beyond [] zero h = refl
drop-beyond [] (suc p) h = refl
drop-beyond (x ∷ s) zero h = absurd (omega (arith, h))
drop-beyond (x ∷ s) (suc p) h = drop-beyond s p (omega (arith, h))

regroup : (a e t : Bool) → (a && (e && t)) ≡ (if e then a && t else false)
regroup true true t = refl
regroup true false t = refl
regroup false true t = refl
regroup false false t = refl

pub same_bytes-has_prefix :
    (t s bc : Bytes) (off p : ℕ)
    → Sits bc off t
    → (leb (length t) (length s - p) && same_bytes (length t) s p bc off) ≡ has_prefix t (drop p s)
unfolding has_prefix same_bytes
same_bytes-has_prefix [] s bc off p h = ground arith
same_bytes-has_prefix (x ∷ t) s bc off p h = elim (Bool-cases (ltb p (length s))) [
  | inl inside ↦
      let here : p < length s = ground arith in
      let room : leb (suc (length t)) (length s - p) ≡ leb (length t) (length s - (p + 1)) =
        ground arith in
      let next : p + 1 ≡ suc p = omega arith in
      let ih = same_bytes-has_prefix t s bc (off + 1) (p + 1) (Sits-tail t h) in
      let swapped : (at s p == x) ≡ (x == at s p) = ground arith in
      let below : drop (p + 1) s ≡ drop (suc p) s = ap (λ q. drop q s) next in
      rw (drop-at s p here, room, at-Sits h)
        (regroup (leb (length t) (length s - (p + 1))) (at s p == x) _
          ∙ rw (ih, swapped, below) refl)
  | inr outside ↦
      let over : length s ≤ p = ground arith in
      let room : leb (suc (length t)) (length s - p) ≡ false = ground arith in
      rw (drop-beyond s p over, room) refl
]
