-- ===== src/Types.antt =====
-- The comparison and type functions of core/src/type_fn.c, on strings that are not null. A position in
-- a string is the rest of the string from there on. The numeric comparisons convert by `strtod` and are
-- not modelled.
use libsnobol.Base.{
  ℕ, zero, suc, ◌+◌, ◌≤◌, ◌<◌, Bool, true, false, not, ◌&&◌, ◌||◌, List, [], ◌∷◌, ltb, leb, ◌==◌,
  if◌then◌else◌, length, min,
}
use libsnobol.Vm.Bytes.{Bytes}
pub mod Lexical
pub mod Numeric

-- the sign of an `int`
pub data Sign : Type 0 where
  negative neutral positive : Sign

-- `memcmp` of `n` bytes
unfoldable pub memcmp : ℕ → Bytes → Bytes → Sign
memcmp (suc n) (a ∷ s) (b ∷ t) =
    let rest = memcmp n s t in if ltb a b then negative else if ltb b a then positive else rest
memcmp _ _ _ = neutral

-- the lengths decide where no byte does
unfoldable pub or_lengths : Sign → ℕ → ℕ → Sign
or_lengths negative m n = negative
or_lengths positive m n = positive
or_lengths neutral m n = if ltb m n then negative else if ltb n m then positive else neutral

-- `snobol_lexcmp`
unfoldable pub snobol_lexcmp : Bytes → Bytes → Sign
unfolding memcmp or_lengths
snobol_lexcmp a b = or_lengths (memcmp (min (length a) (length b)) a b) (length a) (length b)

abbrev pub is_neutral : Sign → Bool
is_neutral neutral = true
is_neutral _ = false

abbrev pub is_negative : Sign → Bool
is_negative negative = true
is_negative _ = false

abbrev pub is_positive : Sign → Bool
is_positive positive = true
is_positive _ = false

-- `snobol_ident`
unfoldable pub snobol_ident : Bytes → Bytes → Bool
unfolding memcmp
snobol_ident a b =
    if length a == length b
    then if length a == 0 then true else is_neutral (memcmp (length a) a b)
    else false

-- `snobol_differ`
unfoldable pub snobol_differ : Bytes → Bytes → Bool
unfolding snobol_ident
snobol_differ a b = not (snobol_ident a b)

-- `snobol_lexeq`, `snobol_lexlt` and `snobol_lexgt`
unfoldable pub snobol_lexeq : Bytes → Bytes → Bool
unfolding snobol_lexcmp
snobol_lexeq a b = is_neutral (snobol_lexcmp a b)

unfoldable pub snobol_lexlt : Bytes → Bytes → Bool
unfolding snobol_lexcmp
snobol_lexlt a b = is_negative (snobol_lexcmp a b)

unfoldable pub snobol_lexgt : Bytes → Bytes → Bool
unfolding snobol_lexcmp
snobol_lexgt a b = is_positive (snobol_lexcmp a b)

abbrev pub is_digit : ℕ → Bool
is_digit c = leb 48 c && leb c 57

-- the loops over the digits
unfoldable pub skip_digits : Bytes → Bytes
skip_digits [] = []
skip_digits (c ∷ s) = let rest = skip_digits s in if is_digit c then rest else c ∷ s

-- an optional character
unfoldable pub skip_if : (ℕ → Bool) → Bytes → Bytes
skip_if test [] = []
skip_if test (c ∷ s) = if test c then s else c ∷ s

abbrev pub is_sign : ℕ → Bool
is_sign c = (c == 43) || (c == 45)

abbrev pub starts_with : (ℕ → Bool) → Bytes → Bool
starts_with test [] = false
starts_with test (c ∷ s) = test c

abbrev pub at_end : Bytes → Bool
at_end [] = true
at_end (c ∷ s) = false

-- `snobol_integer`
unfoldable pub snobol_integer : Bytes → Bool
unfolding skip_digits skip_if
snobol_integer str =
    let unsigned = skip_if is_sign str in
    let rest = skip_digits unsigned in
    if at_end str
    then false
    else if at_end unsigned
    then false
    else at_end rest && ltb (length rest) (length unsigned)

-- the optional decimal part of `snobol_real`
unfoldable pub skip_fraction : Bytes → Bytes
unfolding skip_digits skip_if
skip_fraction s = if starts_with (λ c. c == 46) s then skip_digits (skip_if (λ c. c == 46) s) else s

abbrev pub is_exponent : ℕ → Bool
is_exponent c = (c == 101) || (c == 69)

-- the optional exponent of `snobol_real`, and the test that all bytes are consumed
unfoldable pub ends_with_exponent : Bytes → Bool
unfolding skip_digits skip_if
ends_with_exponent s =
    let digits = skip_if is_sign (skip_if is_exponent s) in
    if starts_with is_exponent s
    then if starts_with is_digit digits then at_end (skip_digits digits) else false
    else at_end s

-- `snobol_real`
unfoldable pub snobol_real : Bytes → Bool
unfolding skip_fraction ends_with_exponent
snobol_real str =
    let unsigned = skip_if is_sign str in
    if at_end str
    then false
    else if starts_with is_digit unsigned
    then ends_with_exponent (skip_fraction (skip_digits unsigned))
    else false

-- `snobol_numeric`
unfoldable pub snobol_numeric : Bytes → Bool
unfolding snobol_integer snobol_real
snobol_numeric str = snobol_integer str || snobol_real str
