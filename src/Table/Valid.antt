-- ===== src/Table/Valid.antt =====
-- The invariant of a table of core/src/table.c, and that every operation keeps it.
use libsnobol.Base.{
  ℕ, ◌+◌, ◌*◌, ◌/◌, ◌≤◌, ◌<◌, ◌≡◌, ◌≢◌, refl, ◌∙◌, true, false, Option, some, arith, length, get_or,
  set, Bool-cases, inl, inr, ltb, length-set,
}
use libsnobol.Slots.{Entry, vacant_entry, spinning, table_hash_bytes}
use libsnobol.Table.{
  Table, tombstone_of, find, remove_at, update_entry, insert_entry, table_maybe_resize,
  table_create, table_initial_capacity, find_place,
}
use libsnobol.Table.Counts.{
  active_count, active_count-set, HoldsValues, set-HoldsValues, active_count-replicate,
  replicate-HoldsValues, as_place, probe_set-probe,
}
use libsnobol.Table.Keys.{find-ends}
use libsnobol.Table.Probing.{active_bound}
use libsnobol.Table.Rehash.{table_resize_lem}
use libsnobol.Vm.Bytes.{Bytes}

-- `loaded` is the bound on `size + tombstones` for a capacity
pub record Loaded (bound : ℕ → ℕ) (t : Table) : Type 0 where
  pub wide : 16 ≤ t.capacity
  pub full : length t.entries ≡ t.capacity
  pub counted : active_count t.entries ≡ t.size
  pub held : HoldsValues t.entries
  pub loaded : t.size + t.tombstones ≤ bound t.capacity

abbrev pub threshold : ℕ → ℕ
threshold capacity = capacity * 3 / 4

-- Every slot is counted, every active entry holds a value, and the load is at most one over the
-- threshold that makes the next `table_set_ex` resize.
abbrev pub IsValid : Table → Type 0
IsValid = Loaded (λ c. threshold c + 1)

-- the load that `table_maybe_resize` leaves
abbrev pub HasRoom : Table → Type 0
HasRoom = Loaded threshold

pub roomy : (t : Table) → IsValid t → active_count t.entries < t.capacity
roomy t v = omega (arith, v.wide, v.counted, v.loaded)

pub HasRoom-IsValid : (t : Table) → HasRoom t → IsValid t
HasRoom-IsValid t r = record {
  wide = r.wide;
  full = r.full;
  counted = r.counted;
  held = r.held;
  loaded = omega (arith, r.loaded);
}

pub find-some : (t : Table) (key : Bytes) → IsValid t → find t key ≢ spinning
find-some t key v = find-ends t key v.full (roomy t v)

-- In a table whose active entries hold values, the probe of `table_set_ex` stops where that of
-- `table_get_ex` does, on the key's entry or on an inactive slot, and never takes the branch that reuses
-- a tombstone.
pub find_place-find :
    (t : Table) (key : Bytes) → HoldsValues t.entries → find_place t key ≡ as_place (find t key)
unfolding find_place find
find_place-find t key all = probe_set-probe _ t.entries _ _ key _ all

pub table_create-IsValid : (name : Option Bytes) → IsValid (table_create name)
unfolding table_create
table_create-IsValid name = record {
  wide = omega arith;
  full = refl;
  counted = active_count-replicate table_initial_capacity;
  held = replicate-HoldsValues table_initial_capacity;
  loaded = omega arith;
}

pub table_maybe_resize-HasRoom :
    (t : Table) → IsValid t → (t' : Table) × (table_maybe_resize t ≡ some t') × HasRoom t'
unfolding table_maybe_resize
table_maybe_resize-HasRoom t v =
    elim (Bool-cases (ltb (t.capacity * 3 / 4) (t.size + t.tombstones))) [
      | inr small ↦ (
        t,
        rw small refl,
        record {
          wide = v.wide;
          full = v.full;
          counted = v.counted;
          held = v.held;
          loaded = ground (arith, small);
        },
      )
      | inl large ↦
          let (es, e, full, count, held) =
            table_resize_lem (t.capacity * 2) t v.held (omega (arith, roomy t v)) in
          (
            record t { entries = es; capacity = t.capacity * 2; tombstones = 0 },
            rw large e,
            record {
              wide = omega (arith, v.wide);
              full = full;
              counted = count ∙ v.counted;
              held = held;
              loaded = omega (arith, v.loaded, v.wide);
            },
          )
    ]

pub remove_at-IsValid :
    (i : ℕ) (t : Table)
    → IsValid t
    → (get_or t.entries i vacant_entry).active ≡ true
    → IsValid (remove_at i t)
unfolding remove_at
remove_at-IsValid i t v on =
    let h = active_bound t.entries i on in
    let e = tombstone_of (get_or t.entries i vacant_entry) in
    let count : active_count (set t.entries i e) + 1 ≡ t.size =
      ground (arith, active_count-set t.entries i e h, on, v.counted) in
    record {
      wide = v.wide;
      full = length-set t.entries i e ∙ v.full;
      counted = ground (arith, count);
      held = set-HoldsValues t.entries i e h (λ q. elim (off q) [ ]) v.held;
      loaded = ground (arith, count, v.loaded);
    }
  where
    off : ¬ (false ≡ true)
    off = λ q. cc

pub update_entry-IsValid :
    (i : ℕ) (value : Bytes) (t : Table)
    → IsValid t
    → (get_or t.entries i vacant_entry).active ≡ true
    → IsValid (update_entry i (some value) t)
unfolding update_entry
update_entry-IsValid i value t v on =
    let h = active_bound t.entries i on in
    let e = record (get_or t.entries i vacant_entry) { value = some value } in
    record {
      wide = v.wide;
      full = length-set t.entries i e ∙ v.full;
      counted = ground (arith, active_count-set t.entries i e h, on, v.counted);
      held = set-HoldsValues t.entries i e h (λ _. (value, refl)) v.held;
      loaded = v.loaded;
    }

pub insert_entry-IsValid :
    (i : ℕ) (key value : Bytes) (t : Table)
    → HasRoom t
    → i < length t.entries
    → (get_or t.entries i vacant_entry).active ≡ false
    → IsValid (insert_entry i false key (some value) t)
unfolding insert_entry
insert_entry-IsValid i key value t r h off =
    let e : Entry = record {
      key = some key;
      value = some value;
      hash = table_hash_bytes key;
      active = true;
    } in
    record {
      wide = r.wide;
      full = length-set t.entries i e ∙ r.full;
      counted = ground (arith, active_count-set t.entries i e h, off, r.counted);
      held = set-HoldsValues t.entries i e h (λ _. (value, refl)) r.held;
      loaded = omega (arith, r.loaded);
    }
