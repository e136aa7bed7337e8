-- ===== src/Tests/Kinds.antt =====
-- Runs of the comparison and type functions of core/src/type_fn.c.
use libsnobol.Base.{◌≡◌, ◌↔◌, refl, true, [], ◌∷◌}
use libsnobol.Types.{snobol_lexcmp, snobol_ident, snobol_integer, snobol_lexlt}
use libsnobol.Types.Lexical.{Says, snobol_lexcmp-Says, snobol_ident_iff}
use libsnobol.Types.Numeric.{IsInteger, snobol_integer_iff}
use libsnobol.Vm.Bytes.{Bytes}

-- "ab", "abc" and "-12"
abbrev ab : Bytes
ab = 97 ∷ 98 ∷ []

abbrev abc : Bytes
abc = 97 ∷ 98 ∷ 99 ∷ []

abbrev minus_12 : Bytes
minus_12 = 45 ∷ 49 ∷ 50 ∷ []

snobol_lexcmp_example : Says (snobol_lexcmp ab abc) ab abc
snobol_lexcmp_example = snobol_lexcmp-Says ab abc

a_prefix_is_less : snobol_lexlt ab abc ≡ true
unfolding snobol_lexlt
a_prefix_is_less = refl

snobol_ident_example : (snobol_ident ab abc ≡ true) ↔ (ab ≡ abc)
snobol_ident_example = snobol_ident_iff ab abc

snobol_integer_example : (snobol_integer minus_12 ≡ true) ↔ IsInteger minus_12
snobol_integer_example = snobol_integer_iff minus_12

minus_12_is_an_integer : snobol_integer minus_12 ≡ true
unfolding snobol_integer
minus_12_is_an_integer = refl
