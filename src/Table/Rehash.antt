-- ===== src/Table/Rehash.antt =====
-- `table_resize` of core/src/table.c: the loop over the old entries ends, and keeps every live entry.
use libsnobol.Base.{
  ℕ, zero, suc, ◌+◌, ◌%◌, ◌<◌, ◌≡◌, ◌≢◌, refl, sym, subst, ◌∙◌, true, false, List, [], ◌∷◌, none,
  some, arith, length, get_or, set, replicate, Bool-cases, inl, inr, length-set, length-replicate,
  Option-cases,
}
use libsnobol.Slots.{Entry, vacant_entry, after, free_slot, is_live, place_at, rehash}
use libsnobol.Table.{Table, table_resize}
use libsnobol.Table.Counts.{
  active_count, active_count-set, some_inactive, HoldsValues, set-HoldsValues,
  active_count-replicate, replicate-HoldsValues,
}
use libsnobol.Table.Probing.{distance, after-distance}
use libsnobol.Vm.Bytes.{Bytes}
use native.Mathlib.Nat.{mod-lt}

-- With an inactive slot in reach, a free slot is found.
free_slot-some :
    (fuel : ℕ) (es : List Entry) (capacity i m : ℕ)
    → i < capacity
    → m < capacity
    → (get_or es m vacant_entry).active ≡ false
    → distance capacity i m < fuel
    → (j : ℕ) × (free_slot fuel es capacity i ≡ some j)
      × (j < capacity)
      × ((get_or es j vacant_entry).active ≡ false)
unfolding free_slot
free_slot-some zero es capacity i m h k v d = elim (none_below d) [ ]
  where
    none_below : ¬ (distance capacity i m < 0)
    none_below = omega arith
free_slot-some (suc fuel) es capacity i m h k v d =
    elim (Bool-cases (get_or es i vacant_entry).active) [
      | inr off ↦ (i, rw off refl, h, off)
      | inl on ↦
          let ne : i ≢ m = λ e. ground (arith, on, v, e) in
          let (inside, closer) = after-distance capacity i m h k ne in
          let (j, e, b, off) =
            free_slot-some fuel es capacity (after capacity i) m inside k v
              (omega (arith, closer, d)) in
          (j, rw on e, b, off)
    ]

record IsRoomy (capacity count : ℕ) (es : List Entry) : Type 0 where
  full : length es ≡ capacity
  counted : active_count es ≡ count
  held : HoldsValues es

live-entry :
    (e : Entry) → (e.active ≡ true → (v : Bytes) × (e.value ≡ some v)) → is_live e ≡ e.active
unfolding is_live
live-entry e one = elim (Option-cases e.value) [
  | inl no_value ↦ elim (Bool-cases e.active) [
    | inl on ↦ elim (clash (sym no_value ∙ (one on).1)) [ ]
    | inr off ↦ rw (no_value, is_live) (sym off)
  ]
  | inr (v, value) ↦ rw (value, is_live) refl
]
  where
    clash : {v : Bytes} → ¬ (none ≡ some v)
    clash = λ q. cc

placed :
    (capacity count : ℕ) (e : Entry) (es : List Entry)
    → IsRoomy capacity count es
    → count < capacity
    → e.active ≡ true
    → ((v : Bytes) × (e.value ≡ some v))
    → (es' : List Entry) × (place_at (free_slot capacity es capacity (e.hash % capacity)) e es
        ≡ some es')
      × IsRoomy capacity (count + 1) es'
unfolding place_at
placed capacity count e es r room on value =
    let (m, below, off) = some_inactive es (omega (arith, r.counted, r.full)) in
    let start = e.hash % capacity in
    let inside : start < capacity = mod-lt e.hash (omega arith) in
    let in_range : m < capacity = omega (arith, r.full) in
    let (j, found, bound, free) =
      free_slot-some capacity es capacity start m inside in_range off (ground arith) in
    let h : j < length es = omega (arith, r.full) in
    (
      set es j e,
      rw found refl,
      record {
        full = length-set es j e ∙ r.full;
        counted = ground (arith, active_count-set es j e h, free, on, r.counted);
        held = set-HoldsValues es j e h (λ _. value) r.held;
      },
    )

rehash-live :
    (capacity : ℕ) (e : Entry) (old es : List Entry) {es' : List Entry}
    → is_live e ≡ true
    → place_at (free_slot capacity es capacity (e.hash % capacity)) e es ≡ some es'
    → rehash capacity (e ∷ old) es ≡ rehash capacity old es'
unfolding rehash
rehash-live capacity e old es live at = rw (live, at) refl

rehash-dead :
    (capacity : ℕ) (e : Entry) (old es : List Entry)
    → is_live e ≡ false
    → rehash capacity (e ∷ old) es ≡ rehash capacity old es
unfolding rehash
rehash-dead capacity e old es dead = rw dead refl

-- The loop ends while there is room, and every active old entry makes one active entry.
rehash-IsRoomy :
    (capacity count : ℕ) (old es : List Entry)
    → HoldsValues old
    → IsRoomy capacity count es
    → count + active_count old < capacity
    → (es' : List Entry) × (rehash capacity old es ≡ some es')
      × IsRoomy capacity (count + active_count old) es'
unfolding rehash
rehash-IsRoomy capacity count [] es all r room =
    (es, refl, subst (λ n. IsRoomy capacity n es) (omega arith) r)
rehash-IsRoomy capacity count (e ∷ old) es all r room = elim (Bool-cases e.active) [
  | inl on ↦
      let (es₁, e₁, r₁) = placed capacity count e es r (ground (arith, on)) on (all 0 on) in
      let (es₂, e₂, r₂) =
        rehash-IsRoomy capacity (count + 1) old es₁ (λ i. all (suc i)) r₁ (ground (arith, on)) in
      (
        es₂,
        rehash-live capacity e old es (live-entry e (all 0) ∙ on) e₁ ∙ e₂,
        subst (λ n. IsRoomy capacity n es₂) (ground (arith, on)) r₂,
      )
  | inr off ↦
      let (es₂, e₂, r₂) =
        rehash-IsRoomy capacity count old es (λ i. all (suc i)) r (ground (arith, off)) in
      (
        es₂,
        rehash-dead capacity e old es (live-entry e (all 0) ∙ off) ∙ e₂,
        subst (λ n. IsRoomy capacity n es₂) (ground (arith, off)) r₂,
      )
]

-- A table whose active entries hold values is resized to any capacity above their number, and keeps as
-- many.
pub table_resize_lem :
    (capacity : ℕ) (t : Table)
    → HoldsValues t.entries
    → active_count t.entries < capacity
    → (es : List Entry) × (table_resize capacity t
        ≡ some (record t { entries = es; capacity = capacity; tombstones = 0 }))
      × (length es ≡ capacity)
      × (active_count es ≡ active_count t.entries)
      × HoldsValues es
unfolding table_resize
table_resize_lem capacity t all room =
    let start : IsRoomy capacity 0 (replicate capacity vacant_entry) = record {
      full = length-replicate capacity vacant_entry;
      counted = active_count-replicate capacity;
      held = replicate-HoldsValues capacity;
    } in
    let (es, e, r) =
      rehash-IsRoomy capacity 0 t.entries (replicate capacity vacant_entry) all start
        (omega arith) in
    (es, rw e refl, r.full, omega (arith, r.counted), r.held)
