-- ===== src/Table.antt =====
-- The associative tables of core/src/table.c, on the slots of Slots. Allocation succeeds. An operation
-- whose loop a full table keeps from ending is `none`.
use libsnobol.Base.{
  ℕ, zero, suc, ◌+◌, ◌-◌, ◌*◌, ◌/◌, ◌%◌, ◌^◌, bit_xor, Bool, true, false, not, ◌&&◌, List, [], ◌∷◌,
  Option, none, some, ltb, leb, ◌==◌, if◌then◌else◌, get_or, set, replicate, ◌>>=◌,
}
use libsnobol.Slots.{
  Entry, vacant_entry, table_hash_bytes, same, has_key, matches, Probe, found, vacant, spinning,
  after, probe, Place, update_at, insert_at, endless, first_tombstone, insert_idx, probe_set,
  free_slot, is_live, place_at, rehash,
}
use libsnobol.Vm.Bytes.{Bytes}
pub mod Probing
pub mod Counts
pub mod Rehash
pub mod Keys
pub mod Valid
pub mod Lookup
pub mod Frame

-- `snobol_table_t`
pub record Table : Type 0 where
  pub entries : List Entry
  pub capacity : ℕ
  pub size : ℕ
  pub tombstones : ℕ
  pub refcount : ℕ
  pub name : Option Bytes

abbrev pub table_initial_capacity : ℕ
table_initial_capacity = 16

-- `table_create`
unfoldable pub table_create : Option Bytes → Table
table_create name = record {
  entries = replicate table_initial_capacity vacant_entry;
  capacity = table_initial_capacity;
  size = 0;
  tombstones = 0;
  refcount = 1;
  name = name;
}

-- `table_retain`
unfoldable pub table_retain : Table → Table
table_retain t = record t { refcount = (t.refcount + 1) % 2 ^ 32 }

-- `table_release`; `none` when the table is freed
unfoldable pub table_release : Table → Option Table
table_release t =
    let r = if t.refcount == 0 then 2 ^ 32 - 1 else t.refcount - 1 in
    if ltb 0 r then some (record t { refcount = r }) else none

-- the probe of a key in the table; a table has `capacity` slots, so that more rounds repeat
unfoldable pub find : Table → Bytes → Probe
unfolding probe
find t key =
    let hash = table_hash_bytes key in
    probe t.capacity t.entries t.capacity hash key (hash % t.capacity)

-- `table_resize`
unfoldable pub table_resize : ℕ → Table → Option Table
unfolding rehash
table_resize new_capacity t = do
  es ← rehash new_capacity t.entries (replicate new_capacity vacant_entry)
  some (record t { entries = es; capacity = new_capacity; tombstones = 0 })

-- `table_maybe_resize`
unfoldable pub table_maybe_resize : Table → Option Table
unfolding table_resize
table_maybe_resize t =
    if ltb (t.capacity * 3 / 4) (t.size + t.tombstones)
    then table_resize (t.capacity * 2) t
    else some t

-- the tombstone of a deleted entry; its hash stays
abbrev pub tombstone_of : Entry → Entry
tombstone_of e = record e { key = none; value = none; active = false }

-- `n--`, on a `size_t`
abbrev pub decremented : ℕ → ℕ
decremented n = if n == 0 then 2 ^ 64 - 1 else n - 1

unfoldable pub remove_at : ℕ → Table → Table
remove_at i t = record t {
  entries = set t.entries i (tombstone_of (get_or t.entries i vacant_entry));
  size = decremented t.size;
  tombstones = t.tombstones + 1;
}

-- the branch of `table_set_ex` for a key that is found
unfoldable pub update_entry : ℕ → Option Bytes → Table → Table
unfolding remove_at
update_entry i none t = remove_at i t
update_entry i (some v) t = record t {
  entries = set t.entries i (record (get_or t.entries i vacant_entry) { value = some v });
}

unfoldable pub insert_entry : ℕ → Bool → Bytes → Option Bytes → Table → Table
insert_entry i reused key value t = record t {
  entries =
      set t.entries i
        (record { key = some key; value = value; hash = table_hash_bytes key; active = true });
  tombstones = if reused then decremented t.tombstones else t.tombstones;
  size = t.size + 1;
}

unfoldable pub set_at : Place → Bytes → Option Bytes → Table → Option Table
unfolding update_entry insert_entry
set_at (update_at i) key value t = some (update_entry i value t)
set_at (insert_at i reused) key value t = some (insert_entry i reused key value t)
set_at endless key value t = none

unfoldable pub find_place : Table → Bytes → Place
unfolding probe_set
find_place t key =
    let hash = table_hash_bytes key in
    probe_set t.capacity t.entries t.capacity hash key (hash % t.capacity) none

-- `table_set_ex`
unfoldable pub table_set_ex : Table → Bytes → Option Bytes → Option Table
unfolding set_at find_place table_maybe_resize
table_set_ex t key value = do t' ← table_maybe_resize t; set_at (find_place t' key) key value t'

unfoldable pub value_at : Probe → Table → Option (Option Bytes)
value_at (found i) t = some (get_or t.entries i vacant_entry).value
value_at (vacant i) t = some none
value_at spinning t = none

-- `table_get_ex`
unfoldable pub table_get_ex : Table → Bytes → Option (Option Bytes)
unfolding value_at find
table_get_ex t key = value_at (find t key) t

-- `table_has_ex`
unfoldable pub table_has_ex : Table → Bytes → Option Bool
unfolding table_get_ex
table_has_ex t key = do v ← table_get_ex t key; some (elim v [ none ↦ false | some _ ↦ true ])

unfoldable pub delete_at : Probe → Table → Option (Bool × Table)
unfolding remove_at
delete_at (found i) t = some (true, remove_at i t)
delete_at (vacant i) t = some (false, t)
delete_at spinning t = none

-- `table_delete_ex`
unfoldable pub table_delete_ex : Table → Bytes → Option (Bool × Table)
unfolding delete_at find
table_delete_ex t key = delete_at (find t key) t

-- the loop body of `table_clear`
unfoldable pub clear_entry : Entry → Entry
clear_entry e = if e.active then tombstone_of e else e

unfoldable pub clear_entries : List Entry → List Entry
unfolding clear_entry
clear_entries [] = []
clear_entries (e ∷ es) = clear_entry e ∷ clear_entries es

-- `table_clear`
unfoldable pub table_clear : Table → Table
unfolding clear_entries
table_clear t = record t { entries = clear_entries t.entries; size = 0; tombstones = 0 }
