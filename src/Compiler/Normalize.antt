-- ===== src/Compiler/Normalize.antt =====
-- The normal form of a class: `normalize_ranges` of core/src/compiler_analysis.c.
use libsnobol.Base.{
  ℕ, ◌+◌, ◌≤◌, ◌<◌, ◌≡◌, refl, ap, ◌∙◌, Bool, true, false, ◌&&◌, ◌||◌, [], ◌∷◌, arith,
  if◌then◌else◌, ltb, leb, Bool-cases, inl, inr,
}
use libsnobol.Compiler.CharClass.{
  CpRanges, insert_range, sort_ranges, merge_ranges, merge_sorted, normalize_ranges,
}

-- whether one of the ranges holds the code point
abbrev pub covers : CpRanges → ℕ → Bool
covers [] cp = false
covers ((a, b) ∷ rs) cp = (leb a cp && leb cp b) || covers rs cp

-- The ranges start behind `low`, in order, with at least one code point between two of them.
abbrev pub SpacedFrom : ℕ → CpRanges → Type 0
SpacedFrom low [] = Unit {0}
SpacedFrom low ((a, b) ∷ rs) = (low + 1 < a) × SpacedFrom b rs

abbrev pub IsSpaced : CpRanges → Type 0
IsSpaced [] = Unit {0}
IsSpaced ((a, b) ∷ rs) = SpacedFrom b rs

-- The starts grow from `low` on.
abbrev StartsFrom : ℕ → CpRanges → Type 0
StartsFrom low [] = Unit {0}
StartsFrom low ((a, b) ∷ rs) = (low ≤ a) × StartsFrom a rs

or_swap : (x y z : Bool) → (x || (y || z)) ≡ (y || (x || z))
or_swap true true z = refl
or_swap true false z = refl
or_swap false y z = refl

covers-insert_range :
    (a b : ℕ) (rs : CpRanges) (cp : ℕ)
    → covers (insert_range (a, b) rs) cp ≡ ((leb a cp && leb cp b) || covers rs cp)
unfolding insert_range
covers-insert_range a b [] cp = refl
covers-insert_range a b ((c, d) ∷ rs) cp = elim (Bool-cases (leb a c)) [
  | inl le ↦ rw le refl
  | inr gt ↦ rw gt (
      ap (λ t. (leb c cp && leb cp d) || t) (covers-insert_range a b rs cp)
      ∙ or_swap (leb c cp && leb cp d) (leb a cp && leb cp b) (covers rs cp))
]

covers-sort_ranges : (rs : CpRanges) (cp : ℕ) → covers (sort_ranges rs) cp ≡ covers rs cp
unfolding sort_ranges
covers-sort_ranges [] cp = refl
covers-sort_ranges ((a, b) ∷ rs) cp =
    covers-insert_range a b (sort_ranges rs) cp
    ∙ ap (λ t. (leb a cp && leb cp b) || t) (covers-sort_ranges rs cp)

insert_range-StartsFrom :
    (low a b : ℕ) (rs : CpRanges)
    → low ≤ a
    → StartsFrom low rs
    → StartsFrom low (insert_range (a, b) rs)
unfolding insert_range
insert_range-StartsFrom low a b [] h s = (h, tt)
insert_range-StartsFrom low a b ((c, d) ∷ rs) h s = elim (Bool-cases (leb a c)) [
  | inl le ↦ rw le (h, (ground arith, s.1))
  | inr gt ↦ rw gt (s.0, insert_range-StartsFrom c a b rs (ground arith) s.1)
]

sort_ranges-StartsFrom : (rs : CpRanges) → StartsFrom 0 (sort_ranges rs)
unfolding sort_ranges
sort_ranges-StartsFrom [] = tt
sort_ranges-StartsFrom ((a, b) ∷ rs) =
    insert_range-StartsFrom 0 a b (sort_ranges rs) (omega arith) (sort_ranges-StartsFrom rs)

-- two ranges that touch cover what their hull covers
hull :
    (a b c d cp : ℕ)
    → a ≤ c
    → leb c (b + 1) ≡ true
    → (leb a cp && leb cp (if ltb b d then d else b))
      ≡ ((leb a cp && leb cp b) || (leb c cp && leb cp d))
hull a b c d cp h t = ground arith

or_assoc : (x y z : Bool) → ((x || y) || z) ≡ (x || (y || z))
or_assoc true y z = refl
or_assoc false y z = refl

covers-merge_ranges :
    (a b : ℕ) (rs : CpRanges) (cp : ℕ)
    → StartsFrom a rs
    → covers (merge_ranges a b rs) cp ≡ ((leb a cp && leb cp b) || covers rs cp)
unfolding merge_ranges
covers-merge_ranges a b [] cp s = refl
covers-merge_ranges a b ((c, d) ∷ rs) cp s = elim (Bool-cases (leb c (b + 1))) [
  | inl joined ↦ rw joined (
      covers-merge_ranges a (if ltb b d then d else b) rs cp (starts_down a c rs s.0 s.1)
      ∙ ap (λ t. t || covers rs cp) (hull a b c d cp s.0 joined)
      ∙ or_assoc (leb a cp && leb cp b) (leb c cp && leb cp d) (covers rs cp))
  | inr apart ↦ rw apart (ap (λ t. (leb a cp && leb cp b) || t) (covers-merge_ranges c d rs cp s.1))
]
  where
    starts_down : (a c : ℕ) (rs : CpRanges) → a ≤ c → StartsFrom c rs → StartsFrom a rs
    starts_down a c [] h s = tt
    starts_down a c ((x, y) ∷ rs) h s = (omega (arith, h, s.0), s.1)

merge_ranges-SpacedFrom :
    (low a b : ℕ) (rs : CpRanges) → low + 1 < a → SpacedFrom low (merge_ranges a b rs)
unfolding merge_ranges
merge_ranges-SpacedFrom low a b [] h = (h, tt)
merge_ranges-SpacedFrom low a b ((c, d) ∷ rs) h = elim (Bool-cases (leb c (b + 1))) [
  | inl joined ↦ rw joined (merge_ranges-SpacedFrom low a (if ltb b d then d else b) rs h)
  | inr apart ↦ rw apart (h, merge_ranges-SpacedFrom b c d rs (ground arith))
]

merge_ranges-IsSpaced : (a b : ℕ) (rs : CpRanges) → IsSpaced (merge_ranges a b rs)
unfolding merge_ranges
merge_ranges-IsSpaced a b [] = tt
merge_ranges-IsSpaced a b ((c, d) ∷ rs) = elim (Bool-cases (leb c (b + 1))) [
  | inl joined ↦ rw joined (merge_ranges-IsSpaced a (if ltb b d then d else b) rs)
  | inr apart ↦ rw apart (merge_ranges-SpacedFrom b c d rs (ground arith))
]

covers-merge_sorted :
    (rs : CpRanges) (cp : ℕ) → StartsFrom 0 rs → covers (merge_sorted rs) cp ≡ covers rs cp
unfolding merge_sorted
covers-merge_sorted [] cp s = refl
covers-merge_sorted ((a, b) ∷ rs) cp s = covers-merge_ranges a b rs cp s.1

merge_sorted-IsSpaced : (rs : CpRanges) → IsSpaced (merge_sorted rs)
unfolding merge_sorted
merge_sorted-IsSpaced [] = tt
merge_sorted-IsSpaced ((a, b) ∷ rs) = merge_ranges-IsSpaced a b rs

-- Normalizing a list of ranges, in any order and with any overlaps, keeps the set of code points that
-- they cover, and leaves ranges in order that neither overlap nor touch.
pub covers-normalize_ranges :
    (rs : CpRanges) (cp : ℕ)
    → (covers (normalize_ranges rs) cp ≡ covers rs cp) × IsSpaced (normalize_ranges rs)
unfolding normalize_ranges
covers-normalize_ranges rs cp = (
  covers-merge_sorted (sort_ranges rs) cp (sort_ranges-StartsFrom rs) ∙ covers-sort_ranges rs cp,
  merge_sorted-IsSpaced (sort_ranges rs),
)
