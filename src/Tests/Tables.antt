-- ===== src/Tests/Tables.antt =====
-- Runs of the tables of core/src/table.c.
use libsnobol.Base.{◌≡◌, refl, ap, get_or, false, Bool, [], ◌∷◌, Option, none, some, arith}
use libsnobol.Slots.{table_hash_bytes}
use libsnobol.Table.{
  find, find_place, Table, table_create, table_set_ex, table_get_ex, table_has_ex, table_delete_ex,
  table_clear, insert_entry,
}
use libsnobol.Table.Counts.{as_place}
use libsnobol.Table.Frame.{table_get_ex-table_set_ex_other, table_get_ex-table_clear}
use libsnobol.Table.Lookup.{table_get_ex-table_set_ex, table_get_ex-table_delete_ex}
use libsnobol.Table.Valid.{
  find_place-find, IsValid, HasRoom, table_create-IsValid, insert_entry-IsValid,
}
use libsnobol.Vm.Bytes.{Bytes}

abbrev empty_table : Table
empty_table = table_create none

-- "k" ↦ "v" in its slot of a new table
abbrev one_entry : Table
one_entry = insert_entry 10 false (107 ∷ []) (some (118 ∷ [])) empty_table

table_get_ex-table_set_ex_example :
    (t' : Table) × (table_set_ex empty_table (107 ∷ []) (some (118 ∷ [])) ≡ some t')
    × (table_get_ex t' (107 ∷ []) ≡ some (some (118 ∷ [])))
    × IsValid t'
table_get_ex-table_set_ex_example =
    table_get_ex-table_set_ex empty_table (107 ∷ []) (118 ∷ []) (table_create-IsValid none)

empty_table-HasRoom : HasRoom empty_table
unfolding table_create
empty_table-HasRoom =
    let v = table_create-IsValid none in
    record {
      wide = v.wide;
      full = v.full;
      counted = v.counted;
      held = v.held;
      loaded = omega arith;
    }

one_entry-IsValid : IsValid one_entry
unfolding table_create
one_entry-IsValid =
    insert_entry-IsValid 10 (107 ∷ []) (118 ∷ []) empty_table empty_table-HasRoom (omega arith) refl

table_get_ex-table_delete_ex_example :
    (b : Bool) × (t' : Table) × (table_delete_ex one_entry (107 ∷ []) ≡ some (b, t'))
    × (table_has_ex one_entry (107 ∷ []) ≡ some b)
    × (table_get_ex t' (107 ∷ []) ≡ some none)
    × IsValid t'
table_get_ex-table_delete_ex_example =
    table_get_ex-table_delete_ex one_entry (107 ∷ []) one_entry-IsValid

table_get_ex-table_clear_example :
    (table_get_ex (table_clear empty_table) (107 ∷ []) ≡ some none)
    × ((table_clear empty_table).size ≡ 0)
unfolding table_create
table_get_ex-table_clear_example = table_get_ex-table_clear empty_table (107 ∷ []) (omega arith)

-- "a" is set, "q" lands behind it on a collision, "a" is deleted, and "q" is lost
abbrev lost_key : Option (Option Bytes)
lost_key = elim (table_set_ex empty_table (97 ∷ []) (some (49 ∷ []))) [
  | none ↦ none
  | some t ↦ elim (table_set_ex t (113 ∷ []) (some (50 ∷ []))) [
    | none ↦ none
    | some u ↦ elim (table_delete_ex u (97 ∷ [])) [
      | none ↦ none
      | some (_, w) ↦ table_get_ex w (113 ∷ [])
    ]
  ]
]

a_deletion_loses_a_key : lost_key ≡ some none
unfolding table_create table_set_ex table_delete_ex table_get_ex table_hash_bytes
a_deletion_loses_a_key = refl

one_entry-get : table_get_ex one_entry (107 ∷ []) ≡ some (some (118 ∷ []))
unfolding table_create table_get_ex insert_entry table_hash_bytes
one_entry-get = refl

distinct_keys : ¬ (◌≡◌ {A = Bytes} (97 ∷ []) (107 ∷ []))
distinct_keys q = omega (arith, ap (λ (l : Bytes). get_or l 0 0) q)

table_get_ex-table_set_ex_other_example :
    (t' : Table) × (table_set_ex one_entry (97 ∷ []) (some (49 ∷ [])) ≡ some t')
    × (table_get_ex t' (107 ∷ []) ≡ some (some (118 ∷ [])))
unfolding insert_entry table_create
table_get_ex-table_set_ex_other_example =
    table_get_ex-table_set_ex_other one_entry (97 ∷ []) (107 ∷ []) (49 ∷ []) (118 ∷ [])
      one_entry-IsValid (omega arith) distinct_keys one_entry-get

find_place-find_example : find_place one_entry (107 ∷ []) ≡ as_place (find one_entry (107 ∷ []))
find_place-find_example = find_place-find one_entry (107 ∷ []) one_entry-IsValid.held
