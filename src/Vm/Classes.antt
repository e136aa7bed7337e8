-- ===== src/Vm/Classes.antt =====
-- Character classes: `get_ranges_ptr`, `ranges_to_ascii_bitmap`, `ranges_to_full_bitmap`,
-- `range_contains` and `bitmap_single_ascii_byte` of core/src/vm_exec.c, `bitmap_test` of
-- core/include/snobol/vm.h. A bitmap is the function from a bit to whether it is set. The cache
-- `range_meta` is taken to be absent.
use libsnobol.Base.{
  ℕ, zero, suc, ◌+◌, ◌-◌, ◌*◌, ◌/◌, Bool, true, false, not, ◌&&◌, ◌||◌, Option, none, some, ltb,
  leb, ◌==◌, if◌then◌else◌, length, update,
}
use libsnobol.Vm.Bytes.{Bytes, at, read_u16}

-- `SNOBOL_LABEL_TABLE_MAGIC`, "SNBL"
abbrev pub label_table_magic : ℕ
label_table_magic = 0x534E_424C

-- four bytes, the high one first
abbrev pub be32 : Bytes → ℕ → ℕ
be32 bc i = ((at bc i * 256 + at bc (i + 1)) * 256 + at bc (i + 2)) * 256 + at bc (i + 3)

-- what `get_ranges_ptr` returns: where the packed ranges begin, their number and the case flag
pub record Ranges : Type 0 where
  pub ptr : ℕ
  pub count : ℕ
  pub case_insensitive : ℕ

-- the position behind the field `charclass_count`, by the format of the bytecode
unfoldable pub class_tail : Bytes → Option ℕ
class_tail bc =
    let tail = length bc in
    if be32 bc (tail - 4) == label_table_magic
    then if ltb tail 8
      then none
      else (let skip = 8 + be32 bc (tail - 8) * 4 in
          if ltb tail (skip + 4) then none else some (tail - skip))
    else some tail

-- the two fields before the packed ranges
unfoldable pub ranges_at : Bytes → ℕ → Ranges
ranges_at bc offset =
    let (count, ip) = read_u16 bc offset in
    let (case_insensitive, ip') = read_u16 bc ip in
    record { ptr = ip'; count = count; case_insensitive = case_insensitive }

-- the lookup in the offset table that ends at `cc_tail`
unfoldable pub class_lookup : Bytes → ℕ → ℕ → Option Ranges
unfolding ranges_at
class_lookup bc set_id cc_tail =
    if ltb cc_tail 4
    then none
    else let class_count = be32 bc (cc_tail - 4) in
      let table_size = class_count * 4 in
      if ltb class_count set_id
      then none
      else if ltb cc_tail (4 + table_size)
      then none
      else let offset = be32 bc (cc_tail - 4 - table_size + (set_id - 1) * 4) in
        if leb (length bc) offset then none else some (ranges_at bc offset)

-- `get_ranges_ptr`, the path that parses the tail of the bytecode
unfoldable pub get_ranges : Bytes → ℕ → Option Ranges
unfolding class_tail class_lookup
get_ranges bc set_id =
    if set_id == 0
    then none
    else if ltb (length bc) 4
    then none
    else elim (class_tail bc) [ none ↦ none | some cc_tail ↦ class_lookup bc set_id cc_tail ]

-- Whether the packed ranges reach past the end of the bytecode. The source reads them untested; the
-- model leaves the run where an opcode asks for such a class.
unfoldable pub is_torn : Bytes → Option Ranges → Bool
is_torn bc none = false
is_torn bc (some r) = ltb (length bc) (r.ptr + r.count * 8)

-- the bounds of range `i`
abbrev pub range_start : Bytes → ℕ → ℕ → ℕ
range_start bc ptr i = be32 bc (ptr + i * 8)

abbrev pub range_end : Bytes → ℕ → ℕ → ℕ
range_end bc ptr i = be32 bc (ptr + i * 8 + 4)

abbrev pub Bitmap : Type 0
Bitmap = ℕ → Bool

-- `for (c = start; c <= end; ++c) map |= 1 << c`, `n` bits from `c` on
unfoldable pub set_bits : ℕ → ℕ → Bitmap → Bitmap
set_bits zero c map = map
set_bits (suc n) c map = set_bits n (c + 1) (update map c true)

-- the loop over the ranges from `i` on, `n` of them; `none` where one passes `limit`
unfoldable pub ranges_bitmap : Bytes → ℕ → ℕ → ℕ → ℕ → Bitmap → Option Bitmap
unfolding set_bits
ranges_bitmap bc limit ptr zero i map = some map
ranges_bitmap bc limit ptr (suc n) i map =
    let start = range_start bc ptr i in
    let end = range_end bc ptr i in
    let rest = ranges_bitmap bc limit ptr n (i + 1) (set_bits (end + 1 - start) start map) in
    if ltb limit start || ltb limit end then none else rest

unfoldable pub ranges_to_ascii_bitmap : Bytes → Ranges → Option Bitmap
unfolding ranges_bitmap
ranges_to_ascii_bitmap bc r = ranges_bitmap bc 127 r.ptr r.count 0 (λ _. false)

unfoldable pub ranges_to_full_bitmap : Bytes → Ranges → Option Bitmap
unfolding ranges_bitmap
ranges_to_full_bitmap bc r = ranges_bitmap bc 255 r.ptr r.count 0 (λ _. false)

-- `bitmap_test`
unfoldable pub bitmap_test : Bitmap → ℕ → Bool
bitmap_test map c = if ltb 127 c then false else map c

-- the binary search of `range_contains`, with fuel
unfoldable pub range_search : ℕ → Bytes → ℕ → ℕ → ℕ → ℕ → Bool
range_search zero bc ptr cp lo hi = false
range_search (suc fuel) bc ptr cp lo hi =
    let mid = lo + (hi - lo) / 2 in
    let below = range_search fuel bc ptr cp lo mid in
    let above = range_search fuel bc ptr cp (mid + 1) hi in
    if leb hi lo
    then false
    else if ltb cp (range_start bc ptr mid)
    then below
    else if ltb (range_end bc ptr mid) cp
    then above
    else true

-- `range_contains`; each round shortens the interval, so `count` rounds suffice
unfoldable pub range_contains : Bytes → Ranges → ℕ → Bool
unfolding range_search
range_contains bc r cp = range_search (suc r.count) bc r.ptr cp 0 r.count

-- `x == 0`, for a word by its bits below `n`
unfoldable pub none_set : ℕ → Bitmap → Bool
none_set zero x = true
none_set (suc n) x = not (x n) && none_set n x

-- `x - 1`: the borrow flips every bit up to the lowest that is set
unfoldable pub minus_one : Bitmap → Bitmap
unfolding none_set
minus_one x k = if none_set k x then not (x k) else x k

-- `x & (x - 1)`
unfoldable pub and_minus_one : Bitmap → Bitmap
unfolding minus_one
and_minus_one x k = x k && minus_one x k

-- `snobol_ctz64`: the zero bits from bit `k` on, at most `n`
unfoldable pub ctz : ℕ → Bitmap → ℕ → ℕ
ctz zero x k = 0
ctz (suc n) x k = let rest = ctz n x (k + 1) in if x k then 0 else suc rest

-- `map[1]`
abbrev pub high_word : Bitmap → Bitmap
high_word map k = map (64 + k)

-- that `x` has one bit, as the code tests it
abbrev pub is_power : Bitmap → Bool
is_power x = not (none_set 64 x) && none_set 64 (and_minus_one x)

-- `bitmap_single_ascii_byte`; `none` is its -1
unfoldable pub bitmap_single_ascii_byte : Bitmap → Option ℕ
unfolding none_set and_minus_one ctz
bitmap_single_ascii_byte map =
    if none_set 64 (high_word map) && is_power map
    then some (ctz 64 map 0)
    else if none_set 64 map && is_power (high_word map)
    then some (64 + ctz 64 (high_word map) 0)
    else none
