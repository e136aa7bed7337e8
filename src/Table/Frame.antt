-- ===== src/Table/Frame.antt =====
-- What `table_set_ex` and `table_clear` of core/src/table.c leave of the other keys.
use libsnobol.Base.{
  ℕ, zero, suc, ◌+◌, ◌≤◌, ◌<◌, ◌≡◌, ◌≢◌, refl, ap, sym, ◌∙◌, true, false, List, [], ◌∷◌, none, some,
  arith, ltb, length, get_or, set, ◌*◌, ◌/◌, Bool-cases, inl, inr,
}
use libsnobol.Slots.{
  Entry, vacant_entry, matches, Probe, found, vacant, spinning, probe, table_hash_bytes,
}
use libsnobol.Table.{
  Table, find, update_entry, insert_entry, table_maybe_resize, table_set_ex, table_get_ex, value_at,
  set_at, table_clear, clear_entries, clear_entry,
}
use libsnobol.Table.Counts.{as_place}
use libsnobol.Table.Keys.{Probe-cases, matches-own, matches-other}
use libsnobol.Table.Probing.{probe-kept, active_bound, get_or-set}
use libsnobol.Table.Valid.{IsValid, HasRoom, threshold, find-some, find_place-find, HasRoom-IsValid}
use libsnobol.Vm.Bytes.{Bytes}
use libsnobol.Table.Lookup.{start_of, find-hit, find-vacant, get-found, get-vacant}

absurd_bool : ¬ (false ≡ true)
absurd_bool = λ q. cc

apart :
    (t : Table) (key key' : Bytes) (i m : ℕ)
    → key ≢ key'
    → find t key ≡ found i
    → find t key' ≡ found m
    → i ≢ m
apart t key key' i m ne e e' q =
    let (_, hit) = find-hit t key i e in
    let (_, hit') = find-hit t key' m e' in
    let hash' = table_hash_bytes key' in
    let miss =
      matches-other (table_hash_bytes key) hash' key key' (get_or t.entries i vacant_entry) ne
        hit in
    absurd_bool (sym miss ∙ ap (λ k. matches hash' key' (get_or t.entries k vacant_entry)) q ∙ hit')

apart_inactive :
    (t : Table) (key' : Bytes) (i m : ℕ)
    → (get_or t.entries i vacant_entry).active ≡ false
    → find t key' ≡ found m
    → i ≢ m
apart_inactive t key' i m off e' q =
    let (on', _) = find-hit t key' m e' in
    absurd_bool (sym off ∙ ap (λ k. (get_or t.entries k vacant_entry).active) q ∙ on')

-- a table with one entry written
abbrev written : ℕ → Entry → Table → ℕ → ℕ → Table
written i e t size tombstones = record t {
  entries = set t.entries i e;
  size = size;
  tombstones = tombstones;
}

-- An active entry for one key, written away from the slot of another, keeps what that one is mapped to.
get-written :
    (t : Table) (key' : Bytes) (i m size tombstones : ℕ) (e : Entry)
    → i < length t.entries
    → i ≢ m
    → e.active ≡ true
    → matches (table_hash_bytes key') key' e ≡ false
    → find t key' ≡ found m
    → table_get_ex (written i e t size tombstones) key' ≡ table_get_ex t key'
unfolding find
get-written t key' i m size tombstones e h ne on miss e' =
    let hash' = table_hash_bytes key' in
    let t' = written i e t size tombstones in
    get-found t' key' m (
      probe-kept t.capacity hash' key' t.capacity t.entries (start_of t key') i m e h ne on miss e')
    ∙ ap (λ x. some x.value) (get_or-set t.entries m i e (λ q. ne (sym q)))
    ∙ sym (get-found t key' m e')

set-other :
    (t : Table) (key key' value : Bytes) (m : ℕ)
    → HasRoom t
    → key ≢ key'
    → find t key' ≡ found m
    → (t' : Table) × (set_at (as_place (find t key)) key (some value) t ≡ some t')
      × (table_get_ex t' key' ≡ table_get_ex t key')
unfolding set_at update_entry insert_entry matches
set-other t key key' value m r ne e' = elim (Probe-cases (find t key)) [
  | inl (i, e) ↦
      let (on, hit) = find-hit t key i e in
      let x = get_or t.entries i vacant_entry in
      let miss = matches-other (table_hash_bytes key) (table_hash_bytes key') key key' x ne hit in
      (
        update_entry i (some value) t,
        rw e refl,
        get-written t key' i m t.size t.tombstones (record x { value = some value })
            (active_bound t.entries i on) (apart t key key' i m ne e e') on miss e',
      )
  | inr (inl (i, e)) ↦
      let (inside, off) = find-vacant t key i (omega (arith, r.wide)) e in
      let hash = table_hash_bytes key in
      let x : Entry = record { key = some key; value = some value; hash = hash; active = true } in
      let miss =
        matches-other hash (table_hash_bytes key') key key' x ne
          (matches-own hash key (some value)) in
      (
        insert_entry i false key (some value) t,
        rw e refl,
        get-written t key' i m (t.size + 1) t.tombstones x (omega (arith, inside, r.full))
            (apart_inactive t key' i m off e') refl miss e',
      )
  | inr (inr e) ↦ elim (find-some t key (HasRoom-IsValid t r) e) [ ]
]

mapped-found :
    (t : Table) (key w : Bytes)
    → table_get_ex t key ≡ some (some w)
    → (m : ℕ) × (find t key ≡ found m)
unfolding table_get_ex value_at
mapped-found t key w h = by_probe (find t key) refl h
  where
    by_probe :
        (p : Probe)
        → find t key ≡ p
        → value_at p t ≡ some (some w)
        → (m : ℕ) × (find t key ≡ found m)
    by_probe (found m) e h = (m, e)
    by_probe (vacant m) e h = elim (none_some h) [ ]
      where
        none_some : ¬ (some none ≡ some (some w))
        none_some = λ q. cc
    by_probe spinning e h = elim (none_some h) [ ]
      where
        none_some : ¬ (none ≡ some (some w))
        none_some = λ q. cc

-- On a valid table that needs no resize, setting one key keeps what every other key is mapped to.
pub table_get_ex-table_set_ex_other :
    (t : Table) (key key' value w : Bytes)
    → IsValid t
    → t.size + t.tombstones ≤ threshold t.capacity
    → key ≢ key'
    → table_get_ex t key' ≡ some (some w)
    → (t' : Table) × (table_set_ex t key (some value) ≡ some t')
      × (table_get_ex t' key' ≡ some (some w))
unfolding table_set_ex table_maybe_resize
table_get_ex-table_set_ex_other t key key' value w v light ne h =
    let (m, e') = mapped-found t key' w h in
    let r : HasRoom t = record {
      wide = v.wide;
      full = v.full;
      counted = v.counted;
      held = v.held;
      loaded = light;
    } in
    let stays : ltb (t.capacity * 3 / 4) (t.size + t.tombstones) ≡ false = ground (arith, light) in
    let (t', stored, kept) = set-other t key key' value m r ne e' in
    (t', rw (stays, find_place-find t key v.held) stored, kept ∙ h)

cleared-inactive :
    (es : List Entry) (i : ℕ) → (get_or (clear_entries es) i vacant_entry).active ≡ false
unfolding clear_entries clear_entry
cleared-inactive [] i = refl
cleared-inactive (e ∷ es) zero = elim (Bool-cases e.active) [
  | inl on ↦ rw on refl
  | inr off ↦ rw off refl
]
cleared-inactive (e ∷ es) (suc i) = cleared-inactive es i

probe-cleared :
    (fuel : ℕ) (es : List Entry) (capacity hash : ℕ) (key : Bytes) (i : ℕ)
    → 0 < fuel
    → probe fuel (clear_entries es) capacity hash key i ≡ vacant i
unfolding probe
probe-cleared zero es capacity hash key i h = elim (none_below h) [ ]
  where
    none_below : ¬ (0 < 0)
    none_below = omega arith
probe-cleared (suc fuel) es capacity hash key i h = rw (cleared-inactive es i) refl

-- After `table_clear` the size is 0 and no key is mapped to a value.
pub table_get_ex-table_clear :
    (t : Table) (key : Bytes)
    → 0 < t.capacity
    → (table_get_ex (table_clear t) key ≡ some none) × ((table_clear t).size ≡ 0)
unfolding table_clear find
table_get_ex-table_clear t key h = (
  get-vacant (table_clear t) key (start_of t key)
      (probe-cleared t.capacity t.entries t.capacity (table_hash_bytes key) key (start_of t key) h),
  refl,
)
