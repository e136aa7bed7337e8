-- ===== src/Tests/Texts.antt =====
-- Runs of the string functions of core/src/string_fn.c.
use libsnobol.Base.{
  ℕ, ◌-◌, ◌≤◌, ◌<◌, ◌≡◌, refl, true, false, [], ◌∷◌, ◌++◌, some, arith, length, drop, max, inl, ◌⊎◌,
}
use libsnobol.Strings.{
  snobol_char, snobol_ord, step_len, snobol_size, count_cps, snobol_reverse, append_backwards,
  spans, snobol_substr, snobol_lpad, snobol_trim, is_space, snobol_replace,
}
use libsnobol.Strings.CodePoints.{snobol_size-count_cps, snobol_reverse_lem, snobol_substr_lem}
use libsnobol.Strings.Edits.{snobol_trim_lem, Replaced, snobol_replace-Replaced}
use libsnobol.Strings.Encoding.{snobol_ord-snobol_char}
use libsnobol.Strings.Padding.{snobol_size-snobol_lpad}
use libsnobol.Vm.Buffer.{Buf, buf_init, buf_append, buf_free, buf_append_lem}
use libsnobol.Vm.Bytes.{Bytes, at}

-- "éa"
abbrev e_acute_a : Bytes
e_acute_a = 195 ∷ 169 ∷ 97 ∷ []

snobol_ord-snobol_char_example :
    (e : Bytes) × (snobol_char 233 ≡ some e)
    × (snobol_ord e ≡ some 233)
    × (step_len (e ++ (97 ∷ [])) ≡ length e)
snobol_ord-snobol_char_example =
    snobol_ord-snobol_char 233 (97 ∷ []) (omega arith, inl (omega arith))

snobol_size-count_cps_example : snobol_size e_acute_a ≡ count_cps 3 e_acute_a
snobol_size-count_cps_example = snobol_size-count_cps e_acute_a

two_code_points : snobol_size e_acute_a ≡ 2
unfolding snobol_size
two_code_points = refl

snobol_reverse_example :
    (snobol_reverse e_acute_a ≡ append_backwards (spans 3 e_acute_a) [])
    × (length (snobol_reverse e_acute_a) ≡ 3)
snobol_reverse_example = snobol_reverse_lem e_acute_a

reversed : snobol_reverse e_acute_a ≡ 97 ∷ 195 ∷ 169 ∷ []
unfolding snobol_reverse
reversed = refl

snobol_substr_example : (195 ∷ 169 ∷ []) ++ (97 ∷ []) ≡ e_acute_a
unfolding snobol_substr
snobol_substr_example = snobol_substr_lem e_acute_a 1 {a = 195 ∷ 169 ∷ []} {b = 97 ∷ []} refl refl

snobol_size-snobol_lpad_example :
    (out : Bytes) × (snobol_lpad e_acute_a 4 233 ≡ some out)
    × (snobol_size out ≡ max 4 (snobol_size e_acute_a))
snobol_size-snobol_lpad_example =
    snobol_size-snobol_lpad e_acute_a 4 233 (omega arith, inl (omega arith))

-- "a b \n"
abbrev spaced : Bytes
spaced = 97 ∷ 32 ∷ 98 ∷ 32 ∷ 10 ∷ []

snobol_trim_example :
    (n : ℕ) × (n ≤ 5)
    × (snobol_trim spaced ++ drop n spaced ≡ spaced)
    × ((i : ℕ) → n ≤ i → i < 5 → is_space (at spaced i) ≡ true)
    × ((snobol_trim spaced ≡ []) ⊎ (is_space (at spaced (n - 1)) ≡ false))
snobol_trim_example = snobol_trim_lem spaced

trimmed : snobol_trim spaced ≡ 97 ∷ 32 ∷ 98 ∷ []
unfolding snobol_trim
trimmed = refl

snobol_replace_example :
    Replaced (97 ∷ []) (99 ∷ 99 ∷ []) spaced (snobol_replace spaced (97 ∷ []) (99 ∷ 99 ∷ []))
snobol_replace_example = snobol_replace-Replaced spaced (97 ∷ []) (99 ∷ 99 ∷ []) (omega arith)

-- a freed buffer
abbrev freed_buffer : Buf
freed_buffer = buf_free buf_init

buf_append_example :
    ((buf_append e_acute_a freed_buffer).bytes ≡ freed_buffer.bytes ++ e_acute_a)
    × (0 < length e_acute_a
        → length (buf_append e_acute_a freed_buffer).bytes
          < (buf_append e_acute_a freed_buffer).cap)
buf_append_example = buf_append_lem e_acute_a freed_buffer
