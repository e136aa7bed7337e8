-- ===== src/Table/Lookup.antt =====
-- What `table_set_ex`, `table_delete_ex` and `table_clear` of core/src/table.c promise to
-- `table_get_ex`.
use libsnobol.Base.{
  ℕ, ◌%◌, ◌<◌, ◌≡◌, refl, ap, sym, subst, ◌∙◌, Bool, true, false, none, some, arith, length, get_or,
  inl, inr,
}
use libsnobol.Slots.{vacant_entry, matches, found, vacant, table_hash_bytes}
use libsnobol.Table.{
  Table, find, remove_at, update_entry, insert_entry, table_set_ex, table_get_ex, table_has_ex,
  table_delete_ex, value_at, delete_at, set_at,
}
use libsnobol.Table.Counts.{as_place}
use libsnobol.Table.Keys.{Probe-cases, probe-hit, probe-vacant, matches-own}
use libsnobol.Table.Probing.{probe-written, probe-removed, active_bound, get_or-set_same, StopsAt}
use libsnobol.Table.Valid.{
  IsValid, HasRoom, find-some, find_place-find, HasRoom-IsValid, table_maybe_resize-HasRoom,
  remove_at-IsValid, update_entry-IsValid, insert_entry-IsValid,
}
use libsnobol.Vm.Bytes.{Bytes}
use native.Mathlib.Nat.{mod-lt}

abbrev pub start_of : Table → Bytes → ℕ
start_of t key = table_hash_bytes key % t.capacity

pub find-hit :
    (t : Table) (key : Bytes) (i : ℕ)
    → find t key ≡ found i
    → ((get_or t.entries i vacant_entry).active ≡ true)
      × (matches (table_hash_bytes key) key (get_or t.entries i vacant_entry) ≡ true)
unfolding find
find-hit t key i e =
    probe-hit t.capacity (table_hash_bytes key) key t.capacity t.entries (start_of t key) i e

pub find-vacant :
    (t : Table) (key : Bytes) (i : ℕ)
    → 0 < t.capacity
    → find t key ≡ vacant i
    → (i < t.capacity) × ((get_or t.entries i vacant_entry).active ≡ false)
unfolding find
find-vacant t key i pos e =
    let hash = table_hash_bytes key in
    probe-vacant t.capacity hash key t.capacity t.entries (start_of t key) i (mod-lt hash pos) e

find-updated :
    (t : Table) (key value : Bytes) (i : ℕ)
    → find t key ≡ found i
    → find (update_entry i (some value) t) key ≡ found i
unfolding find update_entry matches
find-updated t key value i e =
    let (on, hit) = find-hit t key i e in
    let h = active_bound t.entries i on in
    probe-written t.capacity (table_hash_bytes key) key t.capacity t.entries (start_of t key) i _ h
      on hit (subst (λ p. StopsAt p i) (sym e) refl)

find-inserted :
    (t : Table) (key value : Bytes) (i : ℕ)
    → i < length t.entries
    → find t key ≡ vacant i
    → find (insert_entry i false key (some value) t) key ≡ found i
unfolding find insert_entry
find-inserted t key value i h e =
    probe-written t.capacity (table_hash_bytes key) key t.capacity t.entries (start_of t key) i _ h
      refl (matches-own (table_hash_bytes key) key (some value))
      (subst (λ p. StopsAt p i) (sym e) refl)

pub get-found :
    (t : Table) (key : Bytes) (i : ℕ)
    → find t key ≡ found i
    → table_get_ex t key ≡ some (get_or t.entries i vacant_entry).value
unfolding table_get_ex value_at
get-found t key i e = rw e refl

pub get-vacant :
    (t : Table) (key : Bytes) (i : ℕ) → find t key ≡ vacant i → table_get_ex t key ≡ some none
unfolding table_get_ex value_at
get-vacant t key i e = rw e refl

set-stored :
    (t : Table) (key value : Bytes)
    → HasRoom t
    → (t' : Table) × (set_at (as_place (find t key)) key (some value) t ≡ some t')
      × (table_get_ex t' key ≡ some (some value))
      × IsValid t'
unfolding set_at update_entry insert_entry
set-stored t key value r = elim (Probe-cases (find t key)) [
  | inl (i, e) ↦
      let (on, hit) = find-hit t key i e in
      let v = HasRoom-IsValid t r in
      let h = active_bound t.entries i on in
      let t' = update_entry i (some value) t in
      (
        t',
        rw e refl,
        get-found t' key i (find-updated t key value i e)
            ∙ ap (λ x. some x.value) (get_or-set_same t.entries i _ h),
        update_entry-IsValid i value t v on,
      )
  | inr (inl (i, e)) ↦
      let (inside, off) = find-vacant t key i (omega (arith, r.wide)) e in
      let h : i < length t.entries = omega (arith, inside, r.full) in
      let t' = insert_entry i false key (some value) t in
      (
        t',
        rw e refl,
        get-found t' key i (find-inserted t key value i h e)
            ∙ ap (λ x. some x.value) (get_or-set_same t.entries i _ h),
        insert_entry-IsValid i key value t r h off,
      )
  | inr (inr e) ↦ elim (find-some t key (HasRoom-IsValid t r) e) [ ]
]

-- On a valid table `table_set_ex` of a value ends, `table_get_ex` of the key then gives that value, and
-- the table is valid again, whether the key was there or not and whether the table was resized or not.
pub table_get_ex-table_set_ex :
    (t : Table) (key value : Bytes)
    → IsValid t
    → (t' : Table) × (table_set_ex t key (some value) ≡ some t')
      × (table_get_ex t' key ≡ some (some value))
      × IsValid t'
unfolding table_set_ex
table_get_ex-table_set_ex t key value v =
    let (t₁, e, r) = table_maybe_resize-HasRoom t v in
    let (t₂, stored, got, valid) = set-stored t₁ key value r in
    (t₂, rw (e, find_place-find t₁ key r.held) stored, got, valid)

find-removed :
    (t : Table) (key : Bytes) (i : ℕ) → find t key ≡ found i → find (remove_at i t) key ≡ vacant i
unfolding find remove_at
find-removed t key i e =
    let (on, _) = find-hit t key i e in
    probe-removed t.capacity (table_hash_bytes key) key t.capacity t.entries (start_of t key) i _
      (active_bound t.entries i on) refl e

-- On a valid table `table_delete_ex` ends and reports whether the key had a value, as `table_has_ex`
-- does; `table_get_ex` of the key then gives none, and the table is valid again.
pub table_get_ex-table_delete_ex :
    (t : Table) (key : Bytes)
    → IsValid t
    → (b : Bool) × (t' : Table) × (table_delete_ex t key ≡ some (b, t'))
      × (table_has_ex t key ≡ some b)
      × (table_get_ex t' key ≡ some none)
      × IsValid t'
unfolding table_delete_ex delete_at table_has_ex
table_get_ex-table_delete_ex t key v = elim (Probe-cases (find t key)) [
  | inl (i, e) ↦
      let (on, _) = find-hit t key i e in
      (
        true,
        remove_at i t,
        rw e refl,
        rw (get-found t key i e, (v.held i on).1) refl,
        get-vacant (remove_at i t) key i (find-removed t key i e),
        remove_at-IsValid i t v on,
      )
  | inr (inl (i, e)) ↦
      (false, t, rw e refl, rw (get-vacant t key i e) refl, get-vacant t key i e, v)
  | inr (inr e) ↦ elim (find-some t key v e) [ ]
]
