-- ===== src/Compiler/Folding.antt =====
-- Case folding of code points: core/src/unicode_fold.c. Its tables of core/src/unicode_fold_data.c,
-- which a program generates, are parameters.
use libsnobol.Base.{
  ℕ, zero, suc, ◌+◌, ◌-◌, ◌/◌, List, [], ◌∷◌, ◌++◌, Option, none, some, ltb, leb, ◌==◌, ◌&&◌,
  if◌then◌else◌, length, get_or,
}

-- the generated tables: pairs of a key (`lower`) and its image (`upper`)
pub record FoldTables : Type 0 where
  pub lower_to_upper : List (ℕ × ℕ)
  pub upper_to_lower : List (ℕ × ℕ)
  pub multi_char : List (ℕ × List ℕ)

-- `n` numbers from `first` on
unfoldable pub numbers : ℕ → ℕ → List ℕ
numbers first zero = []
numbers first (suc n) = first ∷ numbers (first + 1) n

-- `UPPER_MAP` and `LOWER_MAP`
unfoldable pub upper_map : List ℕ
unfolding numbers
upper_map =
    numbers 0 0x61
    ++ (numbers 0x41 26
        ++ (numbers 0x7B 0x65 ++ (numbers 0xC0 23 ++ 0xF7 ∷ (numbers 0xD8 7 ++ 0x178 ∷ []))))

unfoldable pub lower_map : List ℕ
unfolding numbers
lower_map =
    numbers 0 0x41
    ++ (numbers 0x61 26
        ++ (numbers 0x5B 0x65 ++ (numbers 0xE0 23 ++ 0xD7 ∷ (numbers 0xF8 7 ++ numbers 0xDF 33))))

-- `while (lo < hi)` of `bmp_find_upper` and `bmp_find_lower`, with fuel; `none` where the fuel runs out
unfoldable pub bmp_search : ℕ → List (ℕ × ℕ) → ℕ → ℕ → ℕ → Option ℕ
bmp_search zero table cp lo hi = none
bmp_search (suc fuel) table cp lo hi =
    let mid = lo + (hi - lo) / 2 in
    let (key, image) = get_or table mid (0, 0) in
    let right = bmp_search fuel table cp (mid + 1) hi in
    let left = bmp_search fuel table cp lo mid in
    if ltb lo hi
    then if key == cp then some image else if ltb key cp then right else left
    else some cp

abbrev found_or : ℕ → Option ℕ → ℕ
found_or cp none = cp
found_or cp (some image) = image

-- `bmp_find_upper`, `bmp_find_lower`
unfoldable pub bmp_find : List (ℕ × ℕ) → ℕ → ℕ
unfolding bmp_search
bmp_find table cp = found_or cp (bmp_search (suc (length table)) table cp 0 (length table))

-- the loop over `MULTI_CHAR_EXPANSIONS`
unfoldable pub expansion : List (ℕ × List ℕ) → ℕ → Option (List ℕ)
expansion [] cp = none
expansion ((key, image) ∷ rest) cp = if key == cp then some image else expansion rest cp

-- `snobol_to_upper_cp` behind that loop
upper_single : FoldTables → ℕ → Option (List ℕ) → List ℕ
unfolding upper_map bmp_find
upper_single t cp (some image) = image
upper_single t cp none =
    (if leb cp 0xFF then get_or upper_map cp 0 else bmp_find t.lower_to_upper cp) ∷ []

-- `snobol_to_upper_cp`, the code points that it writes to `out`
unfoldable pub snobol_to_upper_cp : FoldTables → ℕ → List ℕ
unfolding upper_single expansion
snobol_to_upper_cp t cp =
    if ltb cp 0x80
    then (if leb 0x61 cp && leb cp 0x7A then cp - 32 else cp) ∷ []
    else upper_single t cp (expansion t.multi_char cp)

-- `snobol_to_lower_cp`
unfoldable pub snobol_to_lower_cp : FoldTables → ℕ → ℕ
unfolding lower_map bmp_find
snobol_to_lower_cp t cp =
    if ltb cp 0x80
    then if leb 0x41 cp && leb cp 0x5A then cp + 32 else cp
    else if leb cp 0xFF
    then get_or lower_map cp 0
    else bmp_find t.upper_to_lower cp
