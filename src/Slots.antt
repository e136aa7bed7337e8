-- ===== src/Slots.antt =====
-- The slots of a table of core/src/table.c: the entries of core/include/snobol/table.h, the hash of a
-- key, and the loops that probe. A table's strings are owned copies, so that they are values here. A
-- capacity is a power of two, so that `& mask` is the remainder by the capacity. A loop that a full table
-- keeps from ending is `spinning`, `endless` or `none`.
use libsnobol.Base.{
  ℕ, zero, suc, ◌+◌, ◌*◌, ◌%◌, ◌^◌, bit_xor, Bool, true, false, ◌&&◌, List, [], ◌∷◌, Option, none,
  some, ◌==◌, if◌then◌else◌, get_or, set, ◌>>=◌,
}
use libsnobol.Vm.Bytes.{Bytes}

-- `table_entry_t`, with `nullptr` as `none`
pub record Entry : Type 0 where
  pub key : Option Bytes
  pub value : Option Bytes
  pub hash : ℕ
  pub active : Bool

-- an entry of `calloc`
abbrev pub vacant_entry : Entry
vacant_entry = record { key = none; value = none; hash = 0; active = false }

abbrev fnv_prime : ℕ
fnv_prime = 16777619

abbrev fnv_offset_basis : ℕ
fnv_offset_basis = 2166136261

unfoldable hash_from : ℕ → Bytes → ℕ
hash_from h [] = h
hash_from h (b ∷ bs) = hash_from (bit_xor h b * fnv_prime % 2 ^ 32) bs

-- `table_hash_bytes`
unfoldable pub table_hash_bytes : Bytes → ℕ
unfolding hash_from
table_hash_bytes str = hash_from fnv_offset_basis str

-- the comparison of lengths and `memcmp`
unfoldable pub same : Bytes → Bytes → Bool
same [] [] = true
same (a ∷ p) (b ∷ q) = let rest = same p q in if a == b then rest else false
same _ _ = false

unfoldable pub has_key : Bytes → Option Bytes → Bool
unfolding same
has_key key none = false
has_key key (some k) = same k key

unfoldable pub matches : ℕ → Bytes → Entry → Bool
unfolding has_key
matches hash key e = (e.hash == hash) && has_key key e.key

-- where a probe for a key stops: on its entry, on an inactive slot, or never
pub data Probe : Type 0 where
  found vacant : ℕ → Probe
  spinning : Probe

-- `idx = (idx + 1) & mask`
abbrev pub after : ℕ → ℕ → ℕ
after capacity idx = (idx + 1) % capacity

-- the probe loop of `table_get_ex` and `table_delete_ex`, for as many rounds as there is fuel
unfoldable pub probe : ℕ → List Entry → ℕ → ℕ → Bytes → ℕ → Probe
unfolding matches
probe zero es capacity hash key idx = spinning
probe (suc fuel) es capacity hash key idx =
    let e = get_or es idx vacant_entry in
    let rest = probe fuel es capacity hash key (after capacity idx) in
    if e.active then if matches hash key e then found idx else rest else vacant idx

-- where the probe of `table_set_ex` stops: on the key's entry, or where it inserts, and whether that
-- is the first entry without a value that it passed
pub data Place : Type 0 where
  update_at : ℕ → Place
  insert_at : ℕ → Bool → Place
  endless : Place

-- `tombstone_idx`, `none` for `SIZE_MAX`
unfoldable pub first_tombstone : Option ℕ → Entry → ℕ → Option ℕ
first_tombstone (some j) e idx = some j
first_tombstone none e idx = elim e.value [ none ↦ some idx | some _ ↦ none ]

unfoldable pub insert_idx : Option ℕ → ℕ → Place
insert_idx (some j) idx = insert_at j true
insert_idx none idx = insert_at idx false

unfoldable pub probe_set : ℕ → List Entry → ℕ → ℕ → Bytes → ℕ → Option ℕ → Place
unfolding matches first_tombstone insert_idx
probe_set zero es capacity hash key idx tombstone = endless
probe_set (suc fuel) es capacity hash key idx tombstone =
    let e = get_or es idx vacant_entry in
    let rest =
      probe_set fuel es capacity hash key (after capacity idx) (first_tombstone tombstone e idx) in
    if e.active
    then if matches hash key e then update_at idx else rest
    else insert_idx tombstone idx

-- the first inactive slot on the way from `idx`
unfoldable pub free_slot : ℕ → List Entry → ℕ → ℕ → Option ℕ
free_slot zero es capacity idx = none
free_slot (suc fuel) es capacity idx =
    let rest = free_slot fuel es capacity (after capacity idx) in
    if (get_or es idx vacant_entry).active then rest else some idx

-- `entry->active && entry->value != nullptr`
unfoldable pub is_live : Entry → Bool
is_live e = elim e.value [ none ↦ false | some _ ↦ e.active ]

unfoldable pub place_at : Option ℕ → Entry → List Entry → Option (List Entry)
place_at none e es = none
place_at (some i) e es = some (set es i e)

-- the loop of `table_resize` over the old entries, into `es`
unfoldable pub rehash : ℕ → List Entry → List Entry → Option (List Entry)
unfolding free_slot is_live place_at
rehash capacity [] es = some es
rehash capacity (e ∷ old) es = do
  es' ←
      (if is_live e
        then place_at (free_slot capacity es capacity (e.hash % capacity)) e es
        else some es)
  rehash capacity old es'
