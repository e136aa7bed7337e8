-- ===== src/Strings/Casing.antt =====
-- `snobol_upper` and `snobol_lower` of core/src/string_fn.c.
use libsnobol.Base.{
  ℕ, zero, suc, ◌+◌, List, [], ◌∷◌, ◌++◌, Option, none, some, leb, if◌then◌else◌, length,
}
use libsnobol.Compiler.Folding.{FoldTables, snobol_to_upper_cp, snobol_to_lower_cp}
use libsnobol.Strings.{encode_utf8}
use libsnobol.Vm.Bytes.{Bytes, at, utf8_peek_next}

-- what `encode_utf8` writes, nothing where it returns 0
abbrev encoded : Option Bytes → Bytes
encoded none = []
encoded (some bytes) = bytes

-- the loop over the code points of a conversion
encode_all : List ℕ → Bytes
unfolding encode_utf8
encode_all [] = []
encode_all (cp ∷ cps) = encoded (encode_utf8 cp) ++ encode_all cps

-- the loop over the string, with the bytes left as fuel
convert : (ℕ → Bytes) → ℕ → Bytes → ℕ → Bytes
convert f zero s pos = []
convert f (suc fuel) s pos =
    let rest : Bytes = elim (utf8_peek_next s pos) [
      | none ↦ at s pos ∷ convert f fuel s (pos + 1)
      | some (cp, cp_bytes) ↦ f cp ++ convert f fuel s (pos + cp_bytes)
    ] in
    if leb (length s) pos then [] else rest

-- `snobol_upper`
unfoldable pub snobol_upper : FoldTables → Bytes → Bytes
unfolding convert encode_all snobol_to_upper_cp
snobol_upper t s = convert (λ cp. encode_all (snobol_to_upper_cp t cp)) (length s) s 0

-- `snobol_lower`
unfoldable pub snobol_lower : FoldTables → Bytes → Bytes
unfolding convert snobol_to_lower_cp encode_utf8
snobol_lower t s = convert (λ cp. encoded (encode_utf8 (snobol_to_lower_cp t cp))) (length s) s 0
