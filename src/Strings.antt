-- ===== src/Strings.antt =====
-- The string functions of core/src/string_fn.c, on strings that are not null. A position in a string
-- is the rest of the string from there on, an output buffer the bytes that are appended to it, and
-- allocation succeeds. Masks and shifts of a byte are written as divisions and remainders.
use libsnobol.Base.{
  ℕ, zero, suc, ◌+◌, ◌-◌, ◌*◌, ◌/◌, ◌%◌, ◌^◌, Bool, true, false, not, ◌&&◌, ◌||◌, List, [], ◌∷◌,
  ◌++◌, Option, none, some, ltb, leb, ◌==◌, if◌then◌else◌, length, take, drop, replicate, reverse,
  min, update, ◌>>=◌,
}
use libsnobol.Vm.Bytes.{Bytes, at}
pub mod Encoding
pub mod CodePoints
pub mod Edits
pub mod Padding
pub mod Casing

-- `str_is_ascii`
unfoldable pub str_is_ascii : Bytes → Bool
str_is_ascii [] = true
str_is_ascii (b ∷ bs) = let rest = str_is_ascii bs in if leb 128 b then false else rest

-- `utf8_cp_len` at the start of the rest of a string
unfoldable pub utf8_cp_len : Bytes → ℕ
utf8_cp_len [] = 0
utf8_cp_len (c ∷ bs) =
    let left = suc (length bs) in
    if ltb c 128
    then 1
    else if c / 32 == 6
    then if ltb 1 left then 2 else 0
    else if c / 16 == 14
    then if ltb 2 left then 3 else 0
    else if c / 8 == 30
    then if ltb 3 left then 4 else 0
    else 1

-- `if (cl <= 0) cl = 1`
unfoldable pub step_len : Bytes → ℕ
unfolding utf8_cp_len
step_len rest = let cl = utf8_cp_len rest in if cl == 0 then 1 else cl

-- `encode_utf8`; `none` for its 0
unfoldable pub encode_utf8 : ℕ → Option Bytes
encode_utf8 cp =
    if ltb 1114111 cp
    then none
    else if leb 55296 cp && leb cp 57343
    then none
    else if ltb cp 128
    then some (cp ∷ [])
    else if ltb cp 2048
    then some ((192 + cp / 64) ∷ (128 + cp % 64) ∷ [])
    else if ltb cp 65536
    then some ((224 + cp / 4096) ∷ (128 + cp / 64 % 64) ∷ (128 + cp % 64) ∷ [])
    else some
        ((240 + cp / 262144) ∷ (128 + cp / 4096 % 64) ∷ (128 + cp / 64 % 64) ∷ (128 + cp % 64) ∷ [])

-- the counting loop of `snobol_size`, for at most `fuel` code points
unfoldable pub count_cps : ℕ → Bytes → ℕ
unfolding step_len
count_cps zero rest = 0
count_cps (suc fuel) [] = 0
count_cps (suc fuel) (b ∷ bs) =
    let rest = b ∷ bs in suc (count_cps fuel (drop (step_len rest) rest))

-- `snobol_size`; a code point takes a byte at least
unfoldable pub snobol_size : Bytes → ℕ
unfolding str_is_ascii count_cps
snobol_size str = if str_is_ascii str then length str else count_cps (length str) str

abbrev pub is_space : ℕ → Bool
is_space c = (c == 32) || (c == 9) || (c == 13) || (c == 10)

-- the loop of `snobol_trim` that moves `end` down
unfoldable pub trim_end : ℕ → Bytes → ℕ
trim_end zero str = 0
trim_end (suc n) str = let rest = trim_end n str in if is_space (at str n) then rest else suc n

-- `snobol_trim`
unfoldable pub snobol_trim : Bytes → Bytes
unfolding trim_end
snobol_trim str = take (trim_end (length str) str) str

unfoldable pub append_times : ℕ → Bytes → Bytes
append_times zero str = []
append_times (suc n) str = str ++ append_times n str

-- `snobol_dupl`
unfoldable pub snobol_dupl : Bytes → ℕ → Bytes
unfolding append_times
snobol_dupl str n = if (length str == 0) || (n == 0) then [] else append_times n str

-- the spans that the first pass of `snobol_reverse` records
unfoldable pub spans : ℕ → Bytes → List Bytes
unfolding step_len
spans zero rest = []
spans (suc fuel) [] = []
spans (suc fuel) (b ∷ bs) =
    let rest = b ∷ bs in let n = step_len rest in take n rest ∷ spans fuel (drop n rest)

-- the second pass, from the last span to the first, in front of what is appended after it
unfoldable pub append_backwards : List Bytes → Bytes → Bytes
append_backwards [] after = after
append_backwards (c ∷ cs) after = append_backwards cs (c ++ after)

-- `snobol_reverse`; its ASCII path copies the bytes from the last to the first
unfoldable pub snobol_reverse : Bytes → Bytes
unfolding str_is_ascii spans append_backwards
snobol_reverse str =
    if str_is_ascii str then reverse str else append_backwards (spans (length str) str) []

-- the loops of `snobol_substr`: what is left after `n` code points, and the bytes of `n` code points
unfoldable pub skip_cps : ℕ → Bytes → Bytes
unfolding step_len
skip_cps zero rest = rest
skip_cps (suc n) [] = []
skip_cps (suc n) (b ∷ bs) = let rest = b ∷ bs in skip_cps n (drop (step_len rest) rest)

unfoldable pub take_cps : ℕ → Bytes → Bytes
unfolding step_len
take_cps zero rest = []
take_cps (suc n) [] = []
take_cps (suc n) (b ∷ bs) =
    let rest = b ∷ bs in let k = step_len rest in take k rest ++ take_cps n (drop k rest)

-- `snobol_substr`; `none` for its false
unfoldable pub snobol_substr : Bytes → ℕ → ℕ → Option Bytes
unfolding skip_cps take_cps
snobol_substr str pos len =
    let rest = skip_cps (pos - 1) str in
    if pos == 0
    then none
    else if (length rest == 0) && ltb 1 pos
    then none
    else some (take_cps len rest)

-- the `memcmp` of `snobol_replace` and its bound
unfoldable pub has_prefix : Bytes → Bytes → Bool
has_prefix [] str = true
has_prefix (a ∷ pre) [] = false
has_prefix (a ∷ pre) (b ∷ str) = let rest = has_prefix pre str in if a == b then rest else false

-- the loop of `snobol_replace`, with the bytes that remain after it
unfoldable pub replace_from : ℕ → Bytes → Bytes → Bytes → Bytes
unfolding has_prefix
replace_from zero str from to = str
replace_from (suc fuel) [] from to = []
replace_from (suc fuel) (b ∷ bs) from to =
    let str = b ∷ bs in
    if ltb (length str) (length from) then str else elim (has_prefix from str) [
      | true ↦ to ++ replace_from fuel (drop (length from) str) from to
      | false ↦ b ∷ replace_from fuel bs from to
    ]

-- `snobol_replace`
unfoldable pub snobol_replace : Bytes → Bytes → Bytes → Bytes
unfolding replace_from
snobol_replace str from to = if length from == 0 then str else replace_from (length str) str from to

-- the loop of `snobol_replace_char` that fills the table, up to the shorter length
unfoldable pub fill_table : Bytes → Bytes → (ℕ → ℕ) → ℕ → ℕ
fill_table (f ∷ from) (t ∷ to) table = fill_table from to (update table f t)
fill_table _ _ table = table

unfoldable pub translate : (ℕ → ℕ) → Bytes → Bytes
translate table [] = []
translate table (b ∷ bs) = table b ∷ translate table bs

-- `snobol_replace_char`
unfoldable pub snobol_replace_char : Bytes → Bytes → Bytes → Bytes
unfolding fill_table translate
snobol_replace_char str from to = translate (fill_table from to (λ b. b)) str

-- `snobol_lpad`; `none` for its false
unfoldable pub snobol_lpad : Bytes → ℕ → ℕ → Option Bytes
unfolding snobol_size encode_utf8 append_times
snobol_lpad str width pad_cp =
    let cur_width = snobol_size str in
    if leb width cur_width
    then some str
    else (do pad ← encode_utf8 pad_cp; some (append_times (width - cur_width) pad ++ str))

-- `snobol_rpad`
unfoldable pub snobol_rpad : Bytes → ℕ → ℕ → Option Bytes
unfolding snobol_size encode_utf8 append_times
snobol_rpad str width pad_cp =
    let cur_width = snobol_size str in
    if leb width cur_width
    then some str
    else (do pad ← encode_utf8 pad_cp; some (str ++ append_times (width - cur_width) pad))

-- `snobol_char_fn`
unfoldable pub snobol_char : ℕ → Option Bytes
unfolding encode_utf8
snobol_char cp =
    if ltb 1114111 cp then none else if leb 55296 cp && leb cp 57343 then none else encode_utf8 cp

-- `snobol_ord`
unfoldable pub snobol_ord : Bytes → Option ℕ
snobol_ord [] = none
snobol_ord (c ∷ bs) =
    let str = c ∷ bs in
    if ltb c 128
    then some c
    else if c / 32 == 6
    then if ltb (length str) 2 then none else some (c % 32 * 64 + at str 1 % 64)
    else if c / 16 == 14
    then if ltb (length str) 3
      then none
      else some (c % 16 * 4096 + at str 1 % 64 * 64 + at str 2 % 64)
    else if c / 8 == 30
    then if ltb (length str) 4
      then none
      else some (c % 8 * 262144 + at str 1 % 64 * 4096 + at str 2 % 64 * 64 + at str 3 % 64)
    else none
