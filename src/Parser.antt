-- ===== src/Parser.antt =====
-- The parser of pattern source: core/src/parser.c. Its allocations succeed. A parsing function takes the
-- parser and the lexer and ends with a value, with a null pointer, or without fuel; a token's text is
-- read from the source at once.

use libsnobol.Base.{
  ℕ, ◌-◌, ◌+◌, ◌*◌, ◌%◌, ◌^◌, Bool, true, false, not, ◌&&◌, ◌||◌, List, [], ◌∷◌, Option, none, some,
  ltb, leb, ◌==◌, if◌then◌else◌, length, take, drop,
}
use libsnobol.Lexer.{
  TokenType, eof, lit, ident, integer, error, Token, text, number, mark, token_type, LexerError,
  Lexer, LexerState, lexer_next, lexer_peek, lexer_save, lexer_restore,
}
use libsnobol.Vm.Bytes.{Bytes}
use Prim.Native.Char.{code}
use Prim.Native.String.{String}
pub mod Targets
pub mod Calls
pub mod Tables
pub mod Primary
pub mod Grammar
pub mod Trees
pub mod Reports

-- the bytes of a string literal in ASCII
abbrev pub codes : String → Bytes
codes String.[] = []
codes (String.◌∷◌ c s) = code c ∷ codes s

-- what an error message says, with the values that it prints
pub data Message : Type 0 where
  lexical : LexerError → Message
  expected : (want got : TokenType) → Message
  no_integer : (function : Bytes) (got : Token) → Message
  no_int32 : (function : Bytes) (value : ℕ) → Message
  no_capture_name no_capture_target no_naming_target too_many_captures : Message
  naming_range : (reg : ℕ) → Message
  naming_name_range : Message
  duplicate_label : (name : Bytes) → Message
  no_goto_label no_pattern_element unexpected_token trailing_token stray_integer : Message
  indirect_reference bare_identifier unknown_function : Message
  no_string : (function : Bytes) → Message
  no_arguments : (function : Bytes) → Message
  one_pattern bal_delimiters bal_closing bal_encoding three_arguments : Message
  negative_min : (low : ℕ) → Message
  max_below_min : (high low : ℕ) → Message
  no_capture : (name : Bytes) → Message
  no_register_number : Message
  register_range : (value : ℕ) → Message
  key_after_identifier no_key_register : Message
  key_range : (reg : ℕ) → Message
  invalid_key : (name : Bytes) → Message
  no_value no_emit_target : Message
  unknown_capture : (name : Bytes) → Message
  no_emit_argument : Message

-- `parser_error_t`; the field `column` gets a byte position
pub record ParserError : Type 0 where
  pub message : Message
  pub line : ℕ
  pub column : ℕ

-- `struct snobol_parser` with `none` for `has_error == false`, and the lexer that it reads from
pub record Parser : Type 0 where
  pub failure : Option ParserError
  pub seen_labels : List Bytes
  pub capture_reg_counter : ℕ
  pub capture_names : List (Bytes × ℕ)
  pub lexer : Lexer

-- `snobol_parser_create`
unfoldable pub parser_create : Lexer → Parser
parser_create lexer = record {
  failure = none;
  seen_labels = [];
  capture_reg_counter = 0;
  capture_names = [];
  lexer = lexer;
}

-- how a parsing function ends: with a value, with a null pointer or a false, or out of fuel in a state
pub data Ending (A : Type 0) : Type 0 where
  gives : A → Parser → Ending A
  stops : Parser → Ending A
  endless : Parser → Ending A

abbrev pub Parse : Type 0 → Type 0
Parse A = Parser → Ending A

unfoldable pub continue : {A B : Type 0} → Ending A → (A → Parse B) → Ending B
continue (gives a p) f = f a p
continue (stops p) f = stops p
continue (endless p) f = endless p

-- the next step, behind the early return of a null pointer
infixl 5 ◌>>=◌
unfoldable pub ◌>>=◌ : {A B : Type 0} → Parse A → (A → Parse B) → Parse B
◌>>=◌ m f p = continue (m p) f

unfoldable pub return : {A : Type 0} → A → Parse A
return a p = gives a p

-- `set_error` at the lexer's place, and the return of a null pointer
unfoldable pub refuse : {A : Type 0} → Message → Parse A
refuse message p = stops (record p {
  failure = some (record { message = message; line = p.lexer.line; column = p.lexer.pos });
})

-- the token that `advance` and `peek` give, with its text
pub record Read : Type 0 where
  pub token : Token
  pub type : TokenType
  pub chars : Bytes

unfoldable pub read : Bytes → Token → Read
read source (text type start len) = record {
  token = text type start len;
  type = type;
  chars = take len (drop start source);
}
read source token = record { token = token; type = token_type token; chars = [] }

-- `advance`
unfoldable pub skip_token : Parse Unit
skip_token p = gives tt (record p { lexer = (lexer_next p.lexer).1 })

-- `peek`
unfoldable pub peek : Parse Read
peek p =
    let (token, lexer) = lexer_peek p.lexer in
    gives (read lexer.source token) (record p { lexer = lexer })

-- `snobol_lexer_save` and `snobol_lexer_restore` around a look ahead
unfoldable pub save_lexer : Parse LexerState
save_lexer p = gives (lexer_save p.lexer) p

unfoldable pub restore_lexer : LexerState → Parse Unit
restore_lexer state p = gives tt (record p { lexer = lexer_restore p.lexer state })

-- a number for each `token_type_t`, to compare by
unfoldable pub type_number : TokenType → ℕ
type_number eof = 0
type_number lit = 1
type_number ident = 2
type_number TokenType.charclass = 3
type_number integer = 4
type_number TokenType.pipe = 5
type_number TokenType.lparen = 6
type_number TokenType.rparen = 7
type_number TokenType.star = 8
type_number TokenType.plus = 9
type_number TokenType.question = 10
type_number TokenType.anchor_start = 11
type_number TokenType.anchor_end = 12
type_number TokenType.at_sign = 13
type_number TokenType.colon = 14
type_number TokenType.lbracket = 15
type_number TokenType.rbracket = 16
type_number TokenType.dot = 17
type_number TokenType.equals = 18
type_number TokenType.comma = 19
type_number error = 20

-- `tok.type == type`
abbrev pub is : TokenType → TokenType → Bool
is a b = type_number a == type_number b

-- `match`
unfoldable pub next_is : TokenType → Parse Bool
next_is type = do tok ← peek; return (is tok.type type)

unfoldable pub surface : {A : Type 0} → Bool → Option LexerError → Parse A → Parse A
surface true (some e) m = refuse (lexical e)
surface _ _ m = m

-- the report of a lexical error in place of what the parser would say
unfoldable pub or_lexical : {A : Type 0} → TokenType → Parse A → Parse A
or_lexical type m p = surface (is type error) p.lexer.failure m p

-- `expect`
unfoldable pub expect : TokenType → Parse Unit
expect type = do
  tok ← peek
  (if is tok.type type then skip_token else or_lexical tok.type (refuse (expected type tok.type)))

-- whether a 64-bit word is the two's complement of an `int32_t`
abbrev pub is_int32 : ℕ → Bool
is_int32 v = ltb v (2 ^ 31) || leb (2 ^ 64 - 2 ^ 31) v

unfoldable pub value_of : Token → ℕ
value_of (number value) = value
value_of _ = 0

unfoldable pub integer_value : Bytes → ℕ → Parse ℕ
integer_value function v =
    if is_int32 v then skip_token >>= (λ _. return (v % 2 ^ 32)) else refuse (no_int32 function v)

-- `parse_integer_arg`: the word of 32 bits
unfoldable pub parse_integer_arg : Bytes → Parse ℕ
parse_integer_arg function = do
  tok ← peek
  or_lexical tok.type (
      if is tok.type integer
      then integer_value function (value_of tok.token)
      else refuse (no_integer function tok.token))
