-- ===== src/Compiler/CharClass.antt =====
-- The character classes of a compilation: `CCEntry`, `add_range`, `normalize_ranges` and
-- `add_or_get_charclass` of core/src/compiler_analysis.c. A class holds fewer than 65536 ranges, so
-- that its `range_count` does not wrap.
use libsnobol.Base.{
  ℕ, zero, suc, ◌+◌, ◌-◌, Bool, true, false, ◌&&◌, List, [], ◌∷◌, ◌++◌, Option, none, some, ltb,
  leb, ◌==◌, if◌then◌else◌, length, get_or,
}
use libsnobol.Compiler.Folding.{FoldTables, snobol_to_upper_cp, snobol_to_lower_cp}
use libsnobol.Vm.Bytes.{Bytes, utf8_peek_next}

-- `CpRange` arrays: the first and the last code point of each range
abbrev pub CpRanges : Type 0
CpRanges = List (ℕ × ℕ)

-- `CCEntry`
pub record CcEntry : Type 0 where
  pub ranges : CpRanges
  pub case_insensitive : Bool

-- `qsort` by `compare_ranges`
unfoldable pub insert_range : ℕ × ℕ → CpRanges → CpRanges
insert_range (a, b) [] = (a, b) ∷ []
insert_range (a, b) ((c, d) ∷ rs) =
    if leb a c then (a, b) ∷ (c, d) ∷ rs else (c, d) ∷ insert_range (a, b) rs

unfoldable pub sort_ranges : CpRanges → CpRanges
unfolding insert_range
sort_ranges [] = []
sort_ranges (r ∷ rs) = insert_range r (sort_ranges rs)

-- the loop of `normalize_ranges` with the range at index `write` in hand
unfoldable pub merge_ranges : ℕ → ℕ → CpRanges → CpRanges
merge_ranges a b [] = (a, b) ∷ []
merge_ranges a b ((c, d) ∷ rs) =
    let joined = merge_ranges a (if ltb b d then d else b) rs in
    let apart = (a, b) ∷ merge_ranges c d rs in if leb c (b + 1) then joined else apart

unfoldable pub merge_sorted : CpRanges → CpRanges
unfolding merge_ranges
merge_sorted [] = []
merge_sorted ((a, b) ∷ rs) = merge_ranges a b rs

-- `normalize_ranges`
unfoldable pub normalize_ranges : CpRanges → CpRanges
unfolding sort_ranges merge_sorted
normalize_ranges rs = merge_sorted (sort_ranges rs)

-- `add_range(ne, up[k], up[k])` for the code points that a conversion gave
points : List ℕ → CpRanges
points [] = []
points (c ∷ cs) = (c, c) ∷ points cs

-- the folded variants of one code point above 0x7F, in the order in which they are added
fold_wide : FoldTables → ℕ → CpRanges
unfolding points snobol_to_upper_cp snobol_to_lower_cp
fold_wide t c =
    let up = snobol_to_upper_cp t c in
    let lo = snobol_to_lower_cp t c in
    (if get_or up 0 0 == c then [] else points up) ++ (if lo == c then [] else (lo, lo) ∷ [])

-- `for (c = cp; c <= end_cp; c++)`
fold_wide_all : FoldTables → ℕ → ℕ → CpRanges
unfolding fold_wide
fold_wide_all t c zero = []
fold_wide_all t c (suc n) = fold_wide t c ++ fold_wide_all t (c + 1) n

-- the ranges that a single code point and an X-Y range add where case is ignored
unfoldable pub fold_point : FoldTables → ℕ → CpRanges
unfolding fold_wide
fold_point t cp =
    if leb b'A' cp && leb cp b'Z'
    then (cp + 32, cp + 32) ∷ []
    else if leb b'a' cp && leb cp b'z'
    then (cp - 32, cp - 32) ∷ []
    else if ltb 0x7F cp
    then fold_wide t cp
    else []

unfoldable pub fold_range : FoldTables → ℕ → ℕ → CpRanges
unfolding fold_wide_all
fold_range t cp end_cp =
    if leb b'A' cp && leb end_cp b'Z'
    then (cp + 32, end_cp + 32) ∷ []
    else if leb b'a' cp && leb end_cp b'z'
    then (cp - 32, end_cp - 32) ∷ []
    else if ltb 0x7F end_cp
    then fold_wide_all t cp (end_cp + 1 - cp)
    else []

-- the X-Y notation: the end code point and the bytes of the dash and of the end
dash_end : Bytes → ℕ → ℕ → Option (ℕ × ℕ)
unfolding utf8_peek_next
dash_end s pos cp = elim (utf8_peek_next s pos) [
  | none ↦ none
  | some (dash_cp, dash_bytes) ↦ elim (utf8_peek_next s (pos + dash_bytes)) [
    | none ↦ none
    | some (end_cp, end_bytes) ↦
        if (dash_cp == b'-') && ltb cp end_cp then some (end_cp, dash_bytes + end_bytes) else none
  ]
]

-- `while (pos < len)` of `add_or_get_charclass`, with the bytes left as fuel
unfoldable pub parse_class : FoldTables → Bool → ℕ → Bytes → ℕ → CpRanges
unfolding dash_end fold_point fold_range
parse_class t ci zero s pos = []
parse_class t ci (suc fuel) s pos = elim (utf8_peek_next s pos) [
  | none ↦ []
  | some (cp, cp_bytes) ↦ elim (dash_end s (pos + cp_bytes) cp) [
    | none ↦
        (cp, cp) ∷ (if ci then fold_point t cp else []) ++ parse_class t ci fuel s (pos + cp_bytes)
    | some (end_cp, bytes) ↦
        (cp, end_cp) ∷ (if ci then fold_range t cp end_cp else [])
        ++ parse_class t ci fuel s (pos + cp_bytes + bytes)
  ]
]

unfoldable pub same_ranges : CpRanges → CpRanges → Bool
same_ranges [] [] = true
same_ranges [] (_ ∷ _) = false
same_ranges (_ ∷ _) [] = false
same_ranges ((a, b) ∷ rs) ((c, d) ∷ qs) = (a == c) && ((b == d) && same_ranges rs qs)

abbrev pub same_flag : Bool → Bool → Bool
same_flag true b = b
same_flag false true = false
same_flag false false = true

-- the search for an equal entry from id `id` on
unfoldable pub find_entry : CcEntry → ℕ → List CcEntry → Option ℕ
unfolding same_ranges
find_entry ne id [] = none
find_entry ne id (e ∷ es) =
    if same_flag e.case_insensitive ne.case_insensitive && same_ranges e.ranges ne.ranges
    then some id
    else find_entry ne (id + 1) es

-- the id of the entry, at the end of the list where it is new
unfoldable pub place : CcEntry → List CcEntry → Option ℕ → ℕ × List CcEntry
place ne es (some id) = (id, es)
place ne es none = (length es + 1, es ++ ne ∷ [])

unfoldable pub add_entry : CcEntry → List CcEntry → ℕ × List CcEntry
unfolding place find_entry
add_entry ne es = place ne es (find_entry ne 1 es)

-- `add_or_get_charclass`
unfoldable pub add_or_get_charclass : FoldTables → Bool → Bytes → List CcEntry → ℕ × List CcEntry
unfolding parse_class normalize_ranges add_entry
add_or_get_charclass t ci s es =
    add_entry
      (record {
        ranges = normalize_ranges (parse_class t ci (length s) s 0);
        case_insensitive = ci;
      })
      es
