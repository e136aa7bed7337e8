-- ===== src/Vm/Membership.antt =====
-- The binary search of `range_contains` in core/src/vm_exec.c.
use libsnobol.Base.{
  ℕ, zero, suc, ◌+◌, ◌-◌, ◌/◌, ◌≤◌, ◌<◌, ◌≡◌, refl, subst, true, false, arith, ltb, leb, Bool-cases,
  inl, inr, ◌↔◌,
}
use libsnobol.Vm.Bytes.{Bytes}
use libsnobol.Vm.Classes.{Ranges, range_start, range_end, range_search, range_contains}

abbrev pub InRange : Bytes → ℕ → ℕ → ℕ → Type 0
InRange bc ptr cp i = (range_start bc ptr i ≤ cp) × (cp ≤ range_end bc ptr i)

-- the ranges are not empty, and each lies below the next ones
pub record IsSorted (bc : Bytes) (ptr count : ℕ) : Type 0 where
  pub ordered : (i : ℕ) → i < count → range_start bc ptr i ≤ range_end bc ptr i
  pub apart : (i j : ℕ) → i < j → j < count → range_end bc ptr i < range_start bc ptr j

-- a hit of the search is in a range
search_sound :
    (fuel : ℕ) (bc : Bytes) (ptr cp lo hi : ℕ)
    → range_search fuel bc ptr cp lo hi ≡ true
    → (i : ℕ) × (i < hi) × InRange bc ptr cp i
unfolding range_search
search_sound zero bc ptr cp lo hi e = elim (clash e) [ ]
  where
    clash : ¬ (false ≡ true)
    clash = λ q. cc
search_sound (suc fuel) bc ptr cp lo hi e =
    let mid = lo + (hi - lo) / 2 in
    elim (Bool-cases (leb hi lo)) [
      | inl empty ↦ elim (clash (ground (arith, empty, e))) [ ]
      | inr full ↦ elim (Bool-cases (ltb cp (range_start bc ptr mid))) [
        | inl under ↦
            let (i, h, inside) =
              search_sound fuel bc ptr cp lo mid (ground (arith, full, under, e)) in
            (i, ground (arith, h, full), inside)
        | inr from ↦ elim (Bool-cases (ltb (range_end bc ptr mid) cp)) [
          | inl over ↦
              search_sound fuel bc ptr cp (mid + 1) hi (ground (arith, full, from, over, e))
          | inr to ↦ (mid, ground (arith, full), (ground (arith, from), ground (arith, to)))
        ]
      ]
    ]
  where
    clash : ¬ (false ≡ true)
    clash = λ q. cc

-- a range between the bounds that holds the code point is found
search_complete :
    (fuel : ℕ) (bc : Bytes) (ptr count cp lo hi i : ℕ)
    → IsSorted bc ptr count
    → hi ≤ count
    → lo ≤ i
    → i < hi
    → InRange bc ptr cp i
    → hi - lo < fuel
    → range_search fuel bc ptr cp lo hi ≡ true
unfolding range_search
search_complete zero bc ptr count cp lo hi i s top l h inside room = elim (none_below room) [ ]
  where
    none_below : ¬ (hi - lo < 0)
    none_below = omega arith
search_complete (suc fuel) bc ptr count cp lo hi i s top l h inside room =
    let mid = lo + (hi - lo) / 2 in
    let full : leb hi lo ≡ false = ground (arith, l, h) in
    elim (Bool-cases (ltb i mid)) [
      | inl before ↦
          let under : ltb cp (range_start bc ptr mid) ≡ true =
            ground
              (arith, inside, s.apart i mid (ground (arith, before)) (omega (arith, l, h, top))) in
          rw (full, under)
            (search_complete fuel bc ptr count cp lo mid i s (omega (arith, l, h, top)) l
              (ground (arith, before)) inside (omega (arith, room, l, h)))
      | inr not_before ↦ elim (Bool-cases (ltb mid i)) [
        | inl after ↦
            let gap = s.apart mid i (ground (arith, after)) (omega (arith, h, top)) in
            let size = s.ordered mid (omega (arith, l, h, top)) in
            let from : ltb cp (range_start bc ptr mid) ≡ false =
              ground (arith, inside, gap, size) in
            let over : ltb (range_end bc ptr mid) cp ≡ true = ground (arith, inside, gap) in
            rw (full, from, over)
              (search_complete fuel bc ptr count cp (mid + 1) hi i s top (ground (arith, after)) h
                inside (omega (arith, room, l, h)))
        | inr not_after ↦
            let here : i ≡ mid = ground (arith, not_before, not_after) in
            let inside' : InRange bc ptr cp mid = subst (InRange bc ptr cp) here inside in
            let from : ltb cp (range_start bc ptr mid) ≡ false = ground (arith, inside'.0) in
            let over : ltb (range_end bc ptr mid) cp ≡ false = ground (arith, inside'.1) in
            rw (full, from, over) refl
      ]
    ]

-- On sorted ranges the binary search finds a code point exactly when some range holds it.
pub range_contains_lem :
    (bc : Bytes) (r : Ranges) (cp : ℕ)
    → IsSorted bc r.ptr r.count
    → (range_contains bc r cp ≡ true) ↔ ((i : ℕ) × (i < r.count) × InRange bc r.ptr cp i)
unfolding range_contains
range_contains_lem bc r cp s = (
  search_sound (suc r.count) bc r.ptr cp 0 r.count,
  λ (i, h, inside).
      search_complete (suc r.count) bc r.ptr r.count cp 0 r.count i s (omega arith) (omega arith) h
        inside (omega arith),
)
