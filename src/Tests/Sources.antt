-- ===== src/Tests/Sources.antt =====
-- Pattern source through the lexer and the compiler's tables: core/src/lexer.c,
-- core/src/compiler_codegen.c and core/src/compiler_analysis.c.
use libsnobol.Base.{ℕ, ◌≤◌, ◌≡◌, refl, true, false, [], ◌∷◌, some, ◌⊎◌, length, arith}
use libsnobol.Compiler.Ast.{Node, literal, concat, capture, alt, arbno, any, label, goto, nil, cons}
use libsnobol.Compiler.CharClass.{normalize_ranges, parse_class}
use libsnobol.Compiler.Code.{Emission, done, refused, fault}
use libsnobol.Compiler.Compile.{start}
use libsnobol.Compiler.Emit.{Compiler, emit_node}
use libsnobol.Compiler.Normalize.{covers, IsSpaced, covers-normalize_ranges}
use libsnobol.Compiler.Safety.Extends.{IsValid, Extends}
use libsnobol.Compiler.Safety.Trees.{emit_node-IsValid}
use libsnobol.Lexer.{
  mark, error, lexer_create, lexer_next, lexer_peek, lexer_save, lexer_restore, lexer_has_error,
}
use libsnobol.Lexer.Lookahead.{lexer_next-lexer_peek}
use libsnobol.Lexer.Progress.{after_calls, IsLast, lexer_next-IsLast}
use libsnobol.Tests.Patterns.{no_tables}
use libsnobol.Strings.Casing.{snobol_upper}
use libsnobol.Vm.Bytes.{Bytes, utf8_peek_next}

-- `("a" | "bc") . v0`
abbrev letters : Node
letters = capture 0 (alt (literal (b'a' ∷ [])) (literal (b'b' ∷ b'c' ∷ [])))

-- a label, a loop over a class, and a jump back
abbrev looping : Node
looping =
    concat (
      cons (label (some (b'L' ∷ [])) (arbno (any (b'x' ∷ []))))
        (cons (goto (some (b'L' ∷ []))) nil))

abbrev state_of : Emission Compiler → Compiler
state_of (done c) = c
state_of refused = start no_tables false
state_of fault = start no_tables false

emit_node-IsValid_example :
    Extends (start no_tables false) (state_of (emit_node looping (start no_tables false)))
    × IsValid (state_of (emit_node looping (start no_tables false)))
unfolding emit_node start
emit_node-IsValid_example =
    emit_node-IsValid looping (start no_tables false) (record { loops = omega arith; targets = tt })
      refl

covers-normalize_ranges_example :
    (covers (normalize_ranges ((100, 110) ∷ (97, 99) ∷ (105, 120) ∷ [])) 98
      ≡ covers ((100, 110) ∷ (97, 99) ∷ (105, 120) ∷ []) 98)
    × IsSpaced (normalize_ranges ((100, 110) ∷ (97, 99) ∷ (105, 120) ∷ []))
covers-normalize_ranges_example =
    covers-normalize_ranges ((100, 110) ∷ (97, 99) ∷ (105, 120) ∷ []) 98

-- the text `a-f`
abbrev a_to_f : Bytes
a_to_f = b'a' ∷ b'-' ∷ b'f' ∷ []

a_to_f_folded : parse_class no_tables true 3 a_to_f 0 ≡ (b'a', b'f') ∷ (b'A', b'F') ∷ []
unfolding parse_class
a_to_f_folded = refl

-- the source `x12 | 'y'`
abbrev source : Bytes
source = b'x' ∷ b'1' ∷ b'2' ∷ 32 ∷ b'|' ∷ 39 ∷ b'y' ∷ 39 ∷ []

lexer_next-IsLast_example :
    (n : ℕ) × (n ≤ length source) × IsLast (lexer_next (after_calls n (lexer_create source))).0
lexer_next-IsLast_example = lexer_next-IsLast source

lexer_next-lexer_peek_example :
    ((lexer_peek (lexer_create source)).0 ≡ (lexer_next (lexer_create source)).0)
    × ((lexer_next (lexer_peek (lexer_create source)).1).0 ≡ (lexer_next (lexer_create source)).0)
    × ((lexer_next (lexer_peek (lexer_create source)).1).1.pos
        ≡ (lexer_next (lexer_create source)).1.pos)
    × (((lexer_next (lexer_create source)).0 ≡ mark error)
        ⊎ (lexer_restore (lexer_next (lexer_create source)).1 (lexer_save (lexer_create source))
            ≡ lexer_create source))
unfolding lexer_create lexer_has_error
lexer_next-lexer_peek_example = lexer_next-lexer_peek (lexer_create source) refl refl

-- the string `aé` in upper case
upper_e : snobol_upper no_tables (b'a' ∷ 0xC3 ∷ 0xA9 ∷ []) ≡ b'A' ∷ 0xC3 ∷ 0x89 ∷ []
unfolding snobol_upper utf8_peek_next
upper_e = refl
