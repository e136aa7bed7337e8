-- ===== src/Table/Counts.antt =====
-- The entries of a table of core/src/table.c: how many are active, and that the active ones hold a value.
use libsnobol.Base.{
  ℕ, zero, suc, ◌+◌, ◌<◌, ◌≡◌, refl, ap, sym, subst, ◌∙◌, Bool, true, false, List, [], ◌∷◌, none,
  some, arith, ◌==◌, if◌then◌else◌, length, get_or, set, replicate, Bool-cases, inl, inr,
}
use libsnobol.Slots.{
  Entry, vacant_entry, matches, Probe, found, vacant, spinning, after, probe, Place, update_at,
  insert_at, endless, probe_set, first_tombstone, insert_idx,
}
use libsnobol.Table.Probing.{get_or-set, get_or-set_same}
use libsnobol.Vm.Bytes.{Bytes}

abbrev pub one_if : Bool → ℕ
one_if b = if b then 1 else 0

abbrev pub active_count : List Entry → ℕ
active_count [] = 0
active_count (e ∷ es) = one_if e.active + active_count es

pub active_count-set :
    (es : List Entry) (j : ℕ) (e : Entry)
    → j < length es
    → active_count (set es j e) + one_if (get_or es j vacant_entry).active
      ≡ active_count es + one_if e.active
active_count-set [] j e h = omega (arith, h)
active_count-set (x ∷ es) zero e h = omega arith
active_count-set (x ∷ es) (suc j) e h = omega (arith, active_count-set es j e (omega arith))

-- an entry is inactive when not all are active
pub some_inactive :
    (es : List Entry)
    → active_count es < length es
    → (m : ℕ) × (m < length es) × ((get_or es m vacant_entry).active ≡ false)
some_inactive [] h = elim (none_below h) [ ]
  where
    none_below : ¬ (0 < 0)
    none_below = omega arith
some_inactive (x ∷ es) h = elim (Bool-cases x.active) [
  | inr off ↦ (0, omega arith, off)
  | inl on ↦
      let (m, below, off) = some_inactive es (ground (arith, on)) in (suc m, omega arith, off)
]

pub active_count-replicate : (n : ℕ) → active_count (replicate n vacant_entry) ≡ 0
active_count-replicate zero = refl
active_count-replicate (suc n) = omega (arith, active_count-replicate n)

-- every active entry holds a value
abbrev pub HoldsValues : List Entry → Type 0
HoldsValues es =
    (i : ℕ)
    → (get_or es i vacant_entry).active ≡ true
    → (v : Bytes) × ((get_or es i vacant_entry).value ≡ some v)

pub set-HoldsValues :
    (es : List Entry) (j : ℕ) (e : Entry)
    → j < length es
    → (e.active ≡ true → (v : Bytes) × (e.value ≡ some v))
    → HoldsValues es
    → HoldsValues (set es j e)
set-HoldsValues es j e h one all i on = elim (Bool-cases (i == j)) [
  | inl same ↦
      let eq : get_or (set es j e) i vacant_entry ≡ e =
        ap (λ k. get_or (set es j e) k vacant_entry) (ground (arith, same))
        ∙ get_or-set_same es j e h in
      subst (λ x. (v : Bytes) × (x.value ≡ some v)) (sym eq)
        (one (ap (λ x. x.active) (sym eq) ∙ on))
  | inr other ↦
      let eq = get_or-set es i j e (ground (arith, other)) in
      subst (λ x. (v : Bytes) × (x.value ≡ some v)) (sym eq)
        (all i (ap (λ x. x.active) (sym eq) ∙ on))
]

get_or-replicate : (n i : ℕ) → get_or (replicate n vacant_entry) i vacant_entry ≡ vacant_entry
get_or-replicate zero i = refl
get_or-replicate (suc n) zero = refl
get_or-replicate (suc n) (suc i) = get_or-replicate n i

pub replicate-HoldsValues : (n : ℕ) → HoldsValues (replicate n vacant_entry)
replicate-HoldsValues n i on =
    elim (never (sym (ap (λ x. x.active) (get_or-replicate n i)) ∙ on)) [ ]
  where
    never : ¬ (false ≡ true)
    never = λ q. cc

abbrev pub as_place : Probe → Place
as_place (found i) = update_at i
as_place (vacant i) = insert_at i false
as_place spinning = endless

first_tombstone-held :
    (e : Entry) (i : ℕ) {v : Bytes} → e.value ≡ some v → first_tombstone none e i ≡ none
unfolding first_tombstone
first_tombstone-held e i h = rw (h, first_tombstone) refl

-- Where active entries hold values, no tombstone is passed and the two probes agree.
pub probe_set-probe :
    (fuel : ℕ) (es : List Entry) (capacity hash : ℕ) (key : Bytes) (i : ℕ)
    → HoldsValues es
    → probe_set fuel es capacity hash key i none ≡ as_place (probe fuel es capacity hash key i)
unfolding probe probe_set first_tombstone insert_idx
probe_set-probe zero es capacity hash key i all = refl
probe_set-probe (suc fuel) es capacity hash key i all =
    let rest = probe_set-probe fuel es capacity hash key (after capacity i) all in
    elim (Bool-cases (get_or es i vacant_entry).active) [
      | inr off ↦ rw off refl
      | inl on ↦ elim (Bool-cases (matches hash key (get_or es i vacant_entry))) [
        | inl hit ↦ rw (on, hit) refl
        | inr miss ↦
            rw (on, miss, first_tombstone-held (get_or es i vacant_entry) i (all i on).1) rest
      ]
    ]
