-- ===== src/Table/Keys.antt =====
-- What the slot that a probe of core/src/table.c stops at holds, and the comparison of keys.
use libsnobol.Base.{
  ℕ, zero, suc, ◌+◌, ◌%◌, ◌<◌, ◌≡◌, ◌≢◌, refl, ap, sym, subst, ◌∙◌, Bool, true, false, ◌&&◌, List,
  [], ◌∷◌, Option, none, some, arith, ◌==◌, length, get_or, Bool-cases, inl, inr, ◌⊎◌,
}
use libsnobol.Slots.{
  Entry, vacant_entry, same, has_key, matches, Probe, found, vacant, spinning, after, probe,
  table_hash_bytes,
}
use libsnobol.Table.{Table, find}
use libsnobol.Table.Counts.{active_count, some_inactive}
use libsnobol.Table.Probing.{round, probe-ends}
use libsnobol.Vm.Bytes.{Bytes}
use native.Mathlib.Nat.{mod-lt}

clash_of : ¬ (false ≡ true)
clash_of = λ q. cc

pub same_self : (a : Bytes) → same a a ≡ true
unfolding same
same_self [] = refl
same_self (x ∷ a) = ground (arith, same_self a)

same-eq : (a b : Bytes) → same a b ≡ true → a ≡ b
unfolding same
same-eq [] [] h = refl
same-eq (x ∷ a) (y ∷ b) h = elim (Bool-cases (x == y)) [
  | inl eq ↦
      let tail : a ≡ b = same-eq a b (ground (arith, eq, h)) in
      let head : x ≡ y = ground (arith, eq) in ap (λ z. z ∷ a) head ∙ ap (λ z. y ∷ z) tail
  | inr ne ↦ elim (clash_of (ground (arith, ne, h))) [ ]
]
same-eq [] (y ∷ b) h = elim (clash_of h) [ ]
same-eq (x ∷ a) [] h = elim (clash_of h) [ ]

has_key-eq : (key : Bytes) (k : Option Bytes) → has_key key k ≡ true → k ≡ some key
unfolding has_key
has_key-eq key none h = elim (clash_of h) [ ]
has_key-eq key (some k) h = ap some (same-eq k key h)

and-right : (a b : Bool) → (a && b) ≡ true → b ≡ true
and-right true b h = h
and-right false b h = elim (clash_of h) [ ]

matches-key : (hash : ℕ) (key : Bytes) (e : Entry) → matches hash key e ≡ true → e.key ≡ some key
unfolding matches
matches-key hash key e h = has_key-eq key e.key (and-right (e.hash == hash) (has_key key e.key) h)

pub matches-own :
    (hash : ℕ) (key : Bytes) (v : Option Bytes)
    → matches hash key (record { key = some key; value = v; hash = hash; active = true }) ≡ true
unfolding matches has_key
matches-own hash key v = ground (arith, same_self key)

-- An entry for one key does not match another.
pub matches-other :
    (hash hash' : ℕ) (key key' : Bytes) (e : Entry)
    → key ≢ key'
    → matches hash key e ≡ true
    → matches hash' key' e ≡ false
matches-other hash hash' key key' e ne h = elim (Bool-cases (matches hash' key' e)) [
  | inr miss ↦ miss
  | inl hit ↦
      elim (ne (injective (sym (matches-key hash key e h) ∙ matches-key hash' key' e hit))) [ ]
]
  where
    injective : some key ≡ some key' → key ≡ key'
    injective = λ q. cc

found-round :
    (P : ℕ → Type 0) (on hit : Bool) (i m : ℕ) (rest : Probe)
    → round on hit i rest ≡ found m
    → (on ≡ true → hit ≡ true → P i)
    → (rest ≡ found m → P m)
    → P m
found-round P true true i m rest e f g = subst P (ground (arith, e)) (f refl refl)
found-round P true false i m rest e f g = g e
found-round P false _ i m rest e f g = elim (clash e) [ ]
  where
    clash : vacant i ≢ found m
    clash = λ q. cc

vacant-round :
    (P : ℕ → Type 0) (on hit : Bool) (i m : ℕ) (rest : Probe)
    → round on hit i rest ≡ vacant m
    → (on ≡ false → P i)
    → (rest ≡ vacant m → P m)
    → P m
vacant-round P true true i m rest e f g = elim (clash e) [ ]
  where
    clash : found i ≢ vacant m
    clash = λ q. cc
vacant-round P true false i m rest e f g = g e
vacant-round P false _ i m rest e f g = subst P (ground (arith, e)) (f refl)

module _ (capacity hash : ℕ) (key : Bytes) where
  abbrev Matched : List Entry → ℕ → Type 0
  Matched es m =
      ((get_or es m vacant_entry).active ≡ true)
      × (matches hash key (get_or es m vacant_entry) ≡ true)

  -- a found entry is active and for the key
  pub probe-hit :
      (fuel : ℕ) (es : List Entry) (i m : ℕ)
      → probe fuel es capacity hash key i ≡ found m
      → Matched es m
  unfolding probe
  probe-hit zero es i m e = elim (clash e) [ ]
    where
      clash : spinning ≢ found m
      clash = λ q. cc
  probe-hit (suc fuel) es i m e =
      let x = get_or es i vacant_entry in
      found-round (Matched es) x.active (matches hash key x) i m
        (probe fuel es capacity hash key (after capacity i)) e (λ on hit. (on, hit))
        (probe-hit fuel es (after capacity i) m)

  abbrev Free : List Entry → ℕ → Type 0
  Free es m = (m < capacity) × ((get_or es m vacant_entry).active ≡ false)

  -- a vacant slot is inactive and within the table
  pub probe-vacant :
      (fuel : ℕ) (es : List Entry) (i m : ℕ)
      → i < capacity
      → probe fuel es capacity hash key i ≡ vacant m
      → Free es m
  unfolding probe
  probe-vacant zero es i m h e = elim (clash e) [ ]
    where
      clash : spinning ≢ vacant m
      clash = λ q. cc
  probe-vacant (suc fuel) es i m h e =
      let x = get_or es i vacant_entry in
      let inside : after capacity i < capacity = mod-lt (i + 1) (omega arith) in
      vacant-round (Free es) x.active (matches hash key x) i m
        (probe fuel es capacity hash key (after capacity i)) e (λ off. (h, off))
        (probe-vacant fuel es (after capacity i) m inside)

-- the three ends of a probe
pub Probe-cases :
    (p : Probe) → ((i : ℕ) × (p ≡ found i)) ⊎ (((i : ℕ) × (p ≡ vacant i)) ⊎ (p ≡ spinning))
Probe-cases (found i) = inl (i, refl)
Probe-cases (vacant i) = inr (inl (i, refl))
Probe-cases spinning = inr (inr refl)

-- In a table with an inactive slot every probe ends.
pub find-ends :
    (t : Table) (key : Bytes)
    → length t.entries ≡ t.capacity
    → active_count t.entries < t.capacity
    → find t key ≢ spinning
unfolding find
find-ends t key full room =
    let (m, below, off) = some_inactive t.entries (omega (arith, full, room)) in
    let hash = table_hash_bytes key in
    let start : hash % t.capacity < t.capacity = mod-lt hash (omega arith) in
    probe-ends t.capacity hash key t.capacity t.entries (hash % t.capacity) m start
      (omega (arith, full)) off (ground (arith, start, full))
