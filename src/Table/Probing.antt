-- ===== src/Table/Probing.antt =====
-- The probe loops of core/src/table.c: they end where a slot is inactive, and what a write to one slot
-- does to the slot that another probe finds.
use libsnobol.Base.{
  get_or-set_here, get_or-set_away, ℕ, zero, suc, ◌+◌, ◌-◌, ◌%◌, ◌<◌, ◌≡◌, ◌≢◌, refl, ap, sym,
  subst, ◌∙◌, Bool, true, false, List, [], ◌∷◌, arith, ltb, leb, ◌==◌, if◌then◌else◌, length,
  get_or, set, Bool-cases, inl, inr,
}
use libsnobol.Slots.{Entry, vacant_entry, matches, Probe, found, vacant, spinning, after, probe}
use libsnobol.Vm.Bytes.{Bytes}
use native.Mathlib.Nat.{mod-eq_of_lt, mod_self}

pub after-next : (capacity i : ℕ) → i + 1 < capacity → after capacity i ≡ i + 1
after-next capacity i h = mod-eq_of_lt h

pub after-last : (capacity i : ℕ) → i + 1 ≡ capacity → after capacity i ≡ 0
after-last capacity i h = subst (λ c. (i + 1) % c ≡ 0) h (mod_self (i + 1))

-- the rounds from slot `i` to slot `m`
abbrev pub distance : ℕ → ℕ → ℕ → ℕ
distance capacity i m = if leb i m then m - i else capacity - i + m

pub after-distance :
    (capacity i m : ℕ)
    → i < capacity
    → m < capacity
    → i ≢ m
    → (after capacity i < capacity)
      × (distance capacity (after capacity i) m + 1 ≡ distance capacity i m)
after-distance capacity i m h k ne = elim (Bool-cases (ltb (i + 1) capacity)) [
  | inl inside ↦
      let e = after-next capacity i (ground arith) in (ground (arith, e), ground (arith, e))
  | inr last ↦
      let e = after-last capacity i (ground arith) in (ground (arith, e), ground (arith, e))
]

pub get_or-set :
    (es : List Entry) (i j : ℕ) (e : Entry)
    → i ≢ j
    → get_or (set es j e) i vacant_entry ≡ get_or es i vacant_entry
get_or-set es i j e ne = get_or-set_away es i j e vacant_entry ne

pub get_or-set_same :
    (es : List Entry) (j : ℕ) (e : Entry) → j < length es → get_or (set es j e) j vacant_entry ≡ e
get_or-set_same es j e h = get_or-set_here es j e vacant_entry h

pub active_bound :
    (es : List Entry) (i : ℕ) → (get_or es i vacant_entry).active ≡ true → i < length es
active_bound [] i h = ground arith
active_bound (x ∷ es) zero h = omega arith
active_bound (x ∷ es) (suc i) h = omega (arith, active_bound es i h)

-- one round of the loop, by the tests on the entry
abbrev pub round : Bool → Bool → ℕ → Probe → Probe
round on hit idx rest = if on then if hit then found idx else rest else vacant idx

-- the slot that a probe stops at
abbrev pub StopsAt : Probe → ℕ → Type 0
StopsAt (found i) j = i ≡ j
StopsAt (vacant i) j = i ≡ j
StopsAt spinning j = ⊥

round-passed :
    (on hit : Bool) (i j : ℕ) (rest : Probe) {p : Probe}
    → i ≢ j
    → StopsAt (round on hit i rest) j
    → (StopsAt rest j → p ≡ found j)
    → round on hit i p ≡ found j
round-passed true true i j rest ne stops f = elim (ne stops) [ ]
round-passed true false i j rest ne stops f = f stops
round-passed false _ i j rest ne stops f = elim (ne stops) [ ]

round-passed_found :
    (on hit : Bool) (i j : ℕ) (rest : Probe) {p : Probe}
    → i ≢ j
    → round on hit i rest ≡ found j
    → (rest ≡ found j → p ≡ vacant j)
    → round on hit i p ≡ vacant j
round-passed_found true true i j rest ne stops f = elim (ne (ground (arith, stops))) [ ]
round-passed_found true false i j rest ne stops f = f stops
round-passed_found false _ i j rest ne stops f = elim (false_vacant stops) [ ]
  where
    false_vacant : vacant i ≢ found j
    false_vacant = λ q. cc

round-other :
    (on hit : Bool) (i m : ℕ) (rest : Probe) {p : Probe}
    → round on hit i rest ≡ found m
    → (rest ≡ found m → p ≡ found m)
    → round on hit i p ≡ found m
round-other true true i m rest stops f = stops
round-other true false i m rest stops f = f stops
round-other false _ i m rest stops f = elim (false_vacant stops) [ ]
  where
    false_vacant : vacant i ≢ found m
    false_vacant = λ q. cc

round-not_stopped :
    (on hit : Bool) (i m : ℕ) (rest : Probe)
    → i ≢ m
    → round on hit i rest ≡ found m
    → rest ≡ found m
round-not_stopped true true i m rest ne stops = elim (ne (ground (arith, stops))) [ ]
round-not_stopped true false i m rest ne stops = stops
round-not_stopped false _ i m rest ne stops = elim (false_vacant stops) [ ]
  where
    false_vacant : vacant i ≢ found m
    false_vacant = λ q. cc

round-through :
    (on hit : Bool) (i m : ℕ) (rest : Probe)
    → on ≡ true
    → hit ≡ false
    → rest ≡ found m
    → round on hit i rest ≡ found m
round-through on hit i m rest a b e = rw (a, b) e

module _ (capacity hash : ℕ) (key : Bytes) where
  -- With an inactive slot `m` within reach, the loop ends.
  pub probe-ends :
      (fuel : ℕ) (es : List Entry) (i m : ℕ)
      → i < capacity
      → m < capacity
      → (get_or es m vacant_entry).active ≡ false
      → distance capacity i m < fuel
      → probe fuel es capacity hash key i ≢ spinning
  unfolding probe
  probe-ends zero es i m h k v d = omega arith
  probe-ends (suc fuel) es i m h k v d = elim (Bool-cases (get_or es i vacant_entry).active) [
    | inr stop ↦ rw stop (λ q. cc)
    | inl go ↦ elim (Bool-cases (matches hash key (get_or es i vacant_entry))) [
      | inl hit ↦ rw (go, hit) (λ q. cc)
      | inr miss ↦
          let ne : i ≢ m = λ e. ground (arith, go, v, e) in
          let (inside, closer) = after-distance capacity i m h k ne in
          rw (go, miss)
            (probe-ends fuel es (after capacity i) m inside k v (omega (arith, closer, d)))
    ]
  ]

  -- An entry for the key, written to the slot where the probe stopped, is found there.
  pub probe-written :
      (fuel : ℕ) (es : List Entry) (i j : ℕ) (e : Entry)
      → j < length es
      → e.active ≡ true
      → matches hash key e ≡ true
      → StopsAt (probe fuel es capacity hash key i) j
      → probe fuel (set es j e) capacity hash key i ≡ found j
  unfolding probe
  probe-written zero es i j e h on hit stops = elim stops [ ]
  probe-written (suc fuel) es i j e h on hit stops = elim (Bool-cases (i == j)) [
    | inl same ↦
        let eq : j ≡ i = ground (arith, same) in
        subst (λ k. probe (suc fuel) (set es j e) capacity hash key k ≡ found j) eq
          (rw (get_or-set_same es j e h, on, hit) refl)
    | inr other ↦
        let ne : i ≢ j = ground (arith, other) in
        let x = get_or es i vacant_entry in
        rw (get_or-set es i j e ne) (
          round-passed x.active (matches hash key x) i j
            (probe fuel es capacity hash key (after capacity i)) ne stops
            (probe-written fuel es (after capacity i) j e h on hit))
  ]

  -- With the entry that the probe found made inactive, the probe stops there in vain.
  pub probe-removed :
      (fuel : ℕ) (es : List Entry) (i j : ℕ) (e : Entry)
      → j < length es
      → e.active ≡ false
      → probe fuel es capacity hash key i ≡ found j
      → probe fuel (set es j e) capacity hash key i ≡ vacant j
  unfolding probe
  probe-removed zero es i j e h off stops = elim (no stops) [ ]
    where
      no : spinning ≢ found j
      no = λ q. cc
  probe-removed (suc fuel) es i j e h off stops = elim (Bool-cases (i == j)) [
    | inl same ↦
        let eq : j ≡ i = ground (arith, same) in
        subst (λ k. probe (suc fuel) (set es j e) capacity hash key k ≡ vacant j) eq
          (rw (get_or-set_same es j e h, off) refl)
    | inr other ↦
        let ne : i ≢ j = ground (arith, other) in
        let x = get_or es i vacant_entry in
        rw (get_or-set es i j e ne) (
          round-passed_found x.active (matches hash key x) i j
            (probe fuel es capacity hash key (after capacity i)) ne stops
            (probe-removed fuel es (after capacity i) j e h off))
  ]

  -- An entry for another key, written to another slot, leaves the slot that the probe finds.
  pub probe-kept :
      (fuel : ℕ) (es : List Entry) (i j m : ℕ) (e : Entry)
      → j < length es
      → j ≢ m
      → e.active ≡ true
      → matches hash key e ≡ false
      → probe fuel es capacity hash key i ≡ found m
      → probe fuel (set es j e) capacity hash key i ≡ found m
  unfolding probe
  probe-kept zero es i j m e h jm on miss stops = stops
  probe-kept (suc fuel) es i j m e h jm on miss stops = elim (Bool-cases (i == j)) [
    | inl same ↦
        let eq : j ≡ i = ground (arith, same) in
        let x = get_or es i vacant_entry in
        let rest =
          probe-kept fuel es (after capacity i) j m e h jm on miss
            (round-not_stopped x.active (matches hash key x) i m _ (λ q. jm (eq ∙ q)) stops) in
        rw (ap (λ k. get_or (set es j e) k vacant_entry) (sym eq) ∙ get_or-set_same es j e h)
          (round-through e.active (matches hash key e) i m _ on miss rest)
    | inr other ↦
        let ne : i ≢ j = ground (arith, other) in
        let x = get_or es i vacant_entry in
        rw (get_or-set es i j e ne) (
          round-other x.active (matches hash key x) i m
            (probe fuel es capacity hash key (after capacity i)) stops
            (probe-kept fuel es (after capacity i) j m e h jm on miss))
  ]
