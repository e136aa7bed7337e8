-- ===== src/Vm/Growth.antt =====
-- What grows on demand: the undo trail of core/src/vm_capture.c and the label table of
-- core/src/vm_exec.c.
use libsnobol.Base.{
  ℕ, zero, suc, ◌+◌, ◌-◌, ◌*◌, ◌%◌, ◌^◌, ◌≤◌, ◌<◌, ◌≡◌, ◌≢◌, refl, ap, ◌∙◌, true, List, ◌∷◌, ◌++◌,
  some, arith, ltb, leb, ◌==◌, length, set, replicate, Bool-cases, inl, inr, length-append,
  length-replicate, length-set, get_or-set_here, get_or-set_away, get_or-append,
}
use libsnobol.Vm.Exec.{register_label}
use libsnobol.Vm.Handlers.Control.{label_offset}
use libsnobol.Vm.State.{Trail, UndoRecord}
use libsnobol.Vm.Trail.{trail_push, double_past}

-- the doubling loop passes `top` within its fuel
pub double_past-above :
    (fuel top cap : ℕ) → 0 < cap → top < cap + fuel → top < double_past fuel top cap
unfolding double_past
double_past-above zero top cap pos h = omega (arith, h)
double_past-above (suc fuel) top cap pos h = elim (Bool-cases (leb cap top)) [
  | inl small ↦
      rw small (double_past-above fuel top (cap * 2) (omega (arith, pos)) (omega (arith, h, pos)))
  | inr large ↦ rw large (ground (arith, large))
]

-- `vm_trail_push` puts the record on top of the others, within the capacity that it leaves: the doubling
-- loop ends.
pub trail_push_lem :
    (u : UndoRecord) (t : Trail)
    → length t.records ≤ t.cap
    → ((trail_push u t).records ≡ u ∷ t.records)
      × (length (trail_push u t).records ≤ (trail_push u t).cap)
unfolding trail_push
trail_push_lem u t h = (refl, roomy)
  where
    above :
        (cap : ℕ)
        → 0 < cap
        → length t.records < double_past (suc (length t.records)) (length t.records) cap
    above cap pos = double_past-above _ (length t.records) cap pos (omega (arith, pos))

    roomy : length (trail_push u t).records ≤ (trail_push u t).cap
    roomy = elim (Bool-cases (leb t.cap (length t.records))) [
      | inr room ↦ rw room (ground (arith, room))
      | inl full ↦ elim (Bool-cases (t.cap == 0)) [
        | inl first ↦ rw (full, first) (omega (arith, above 256 (omega arith)))
        | inr later ↦ rw (full, later) (omega (arith, above (t.cap * 2) (ground (arith, later))))
      ]
    ]

-- A registered label is found with its offset modulo 2^16, and the labels registered before keep theirs.
pub label_offset-register_label :
    (id offset : ℕ) (offsets : List ℕ)
    → (label_offset (register_label id offset offsets) id ≡ some (offset % 2 ^ 16))
      × ((other : ℕ)
          → other < length offsets
          → other ≢ id
          → label_offset (register_label id offset offsets) other ≡ label_offset offsets other)
unfolding label_offset register_label
label_offset-register_label id offset offsets = (found, others)
  where
    grown : List ℕ
    grown = offsets ++ replicate (id + 1 - length offsets) 0

    long : (id < length grown) × (length offsets ≤ length grown)
    long =
        let n = length-append offsets (replicate (id + 1 - length offsets) 0) in
        let k = length-replicate {A = ℕ} (id + 1 - length offsets) 0 in
        (omega (arith, n, k), omega (arith, n, k))

    v : ℕ
    v = offset % 2 ^ 16

    found : label_offset (register_label id offset offsets) id ≡ some (offset % 2 ^ 16)
    found =
        let inside : ltb id (length (set grown id v)) ≡ true =
          ground (arith, length-set grown id v, long) in
        rw inside (ap some (get_or-set_here grown id v 0 long.0))

    others :
        (other : ℕ)
        → other < length offsets
        → other ≢ id
        → label_offset (register_label id offset offsets) other ≡ label_offset offsets other
    others other h ne =
        let inside : ltb other (length (set grown id v)) ≡ true =
          ground (arith, length-set grown id v, long, h) in
        let before : ltb other (length offsets) ≡ true = ground (arith, h) in
        rw (inside, before)
          (ap some (
            get_or-set_away grown other id v 0 ne
            ∙ get_or-append offsets (replicate (id + 1 - length offsets) 0) other 0 h))
