-- ===== src/Lexer.antt =====
-- The lexer of pattern source: core/src/lexer.c and core/include/snobol/lexer.h.
pub mod Progress
pub mod Lookahead
pub mod Weight
use libsnobol.Base.{
  ℕ, zero, suc, ◌+◌, ◌-◌, ◌*◌, ◌/◌, ◌%◌, ◌^◌, Bool, true, false, not, ◌&&◌, ◌||◌, List, [], ◌∷◌,
  Option, none, some, ltb, leb, ◌==◌, if◌then◌else◌, length,
}
use libsnobol.Vm.Bytes.{Bytes, at}
use libsnobol.Vm.Cursor.{scan_bytes}

-- `token_type_t`
pub data TokenType : Type 0 where
  eof lit ident charclass integer pipe lparen rparen star plus question : TokenType
  anchor_start anchor_end at_sign colon lbracket rbracket dot equals comma error : TokenType

-- `token_t`: a text is a span of the source, an integer the word of its `int64_t`.
pub data Token : Type 0 where
  mark : (type : TokenType) → Token
  text : (type : TokenType) (start len : ℕ) → Token
  number : (value : ℕ) → Token

unfoldable pub token_type : Token → TokenType
token_type (mark type) = type
token_type (text type start len) = type
token_type (number value) = integer

-- the message of an error, with its line and column
pub data LexerError : Type 0 where
  unrecognized : (c line column : ℕ) → LexerError
  too_large : (line column : ℕ) → LexerError

-- `struct snobol_lexer`
pub record Lexer : Type 0 where
  pub source : Bytes
  pub pos : ℕ
  pub line : ℕ
  pub column : ℕ
  pub peek_token : Token
  pub has_peek : Bool
  pub prev_type : TokenType
  pub failure : Option LexerError

-- `snobol_lexer_create`
unfoldable pub lexer_create : Bytes → Lexer
lexer_create source = record {
  source = source;
  pos = 0;
  line = 1;
  column = 1;
  peek_token = mark eof;
  has_peek = false;
  prev_type = eof;
  failure = none;
}

-- `snobol_lexer_has_error`
unfoldable pub lexer_has_error : Lexer → Bool
lexer_has_error lx = elim lx.failure [ none ↦ false | some _ ↦ true ]

abbrev pub is_digit_char : ℕ → Bool
is_digit_char c = leb b'0' c && leb c b'9'

abbrev pub is_ident_start : ℕ → Bool
is_ident_start c = (leb b'a' c && leb c b'z') || (leb b'A' c && leb c b'Z') || (c == b'_')

abbrev pub is_ident_continue : ℕ → Bool
is_ident_continue c = is_ident_start c || is_digit_char c

abbrev pub is_blank : ℕ → Bool
is_blank c = (c == 32) || (c == 9) || (c == 10) || (c == 13)

-- one round of `skip_whitespace`
unfoldable pub skip_one : Lexer → Lexer
skip_one lx =
    let newline = at lx.source lx.pos == 10 in
    record lx {
      pos = lx.pos + 1;
      line = if newline then lx.line + 1 else lx.line;
      column = if newline then 1 else lx.column + 1;
    }

-- `skip_whitespace`, with the bytes left as fuel
unfoldable pub skip_whitespace : ℕ → Lexer → Lexer
unfolding skip_one
skip_whitespace zero lx = lx
skip_whitespace (suc fuel) lx =
    let rest = skip_whitespace fuel (skip_one lx) in
    if ltb lx.pos (length lx.source) && is_blank (at lx.source lx.pos) then rest else lx

-- the lexer behind `n` more bytes of the line
unfoldable pub advance : ℕ → Lexer → Lexer
advance n lx = record lx { pos = lx.pos + n; column = lx.column + n }

-- `scan_literal` and `scan_charclass`: the span up to the closing byte. Behind the closing byte the
-- column has grown by the length of the span twice.
unfoldable pub scan_closed : TokenType → ℕ → Lexer → Token × Lexer
unfolding advance
scan_closed type closing lx =
    let stop = scan_bytes (length lx.source) (λ c. not (c == closing)) lx.source lx.pos in
    let n = stop - lx.pos in
    let scanned = advance n lx in
    (
      text type lx.pos n,
      if ltb stop (length lx.source)
          then record scanned { pos = stop + 1; column = scanned.column + (n + 1) + 1 }
          else scanned,
    )

-- `scan_ident`
unfoldable pub scan_ident : Lexer → Token × Lexer
unfolding advance
scan_ident lx =
    let stop = scan_bytes (length lx.source) is_ident_continue lx.source lx.pos in
    (text ident lx.pos (stop - lx.pos), advance (stop - lx.pos) lx)

-- `INT64_MAX`
abbrev pub int64_max : ℕ
int64_max = 9223372036854775807

-- the loop of `scan_integer` over the digits: the value, whether it overflowed, and the position; a
-- value that overflowed is not used
unfoldable pub scan_digits : ℕ → Bytes → ℕ → ℕ → Bool → ℕ × Bool × ℕ
scan_digits zero s pos value overflow = (value, overflow, pos)
scan_digits (suc fuel) s pos value overflow =
    let d = at s pos - b'0' in
    let rest =
      scan_digits fuel s (pos + 1) (value * 10 + d)
        (overflow || ltb ((int64_max - d) / 10) value) in
    if ltb pos (length s) && is_digit_char (at s pos) then rest else (value, overflow, pos)

unfoldable pub fail_with : LexerError → Lexer → Lexer
fail_with e lx = record lx { failure = elim lx.failure [ none ↦ some e | some old ↦ some old ] }

-- the end of `scan_integer`
unfoldable pub finish_integer : Bool → Lexer → ℕ × Bool × ℕ → Token × Lexer
unfolding advance fail_with
finish_integer negative lx (value, overflow, stop) =
    let scanned = advance (stop - lx.pos) lx in
    if overflow
    then (mark error, fail_with (too_large scanned.line scanned.column) scanned)
    else (number (if negative then (2 ^ 64 - value) % 2 ^ 64 else value), scanned)

-- `scan_integer`; its second loop finds no digit left
unfoldable pub scan_integer : Bool → Lexer → Token × Lexer
unfolding scan_digits finish_integer
scan_integer negative lx =
    finish_integer negative lx (scan_digits (length lx.source) lx.source lx.pos 0 false)

-- whether a quote stands before the first `]` from `i` on
unfoldable pub quote_before_bracket : ℕ → Bytes → ℕ → Bool
quote_before_bracket zero s i = false
quote_before_bracket (suc fuel) s i =
    let rest = quote_before_bracket fuel s (i + 1) in
    if leb (length s) i || (at s i == b']') then false else if at s i == 39 then true else rest

-- `bracket_is_table_key`
unfoldable pub bracket_is_table_key : Lexer → Bool
unfolding quote_before_bracket
bracket_is_table_key lx =
    let s = lx.source in
    let n = length s in
    let i = scan_bytes n (λ c. (c == 32) || (c == 9)) s (lx.pos + 1) in
    if leb n i
    then false
    else if at s i == 39
    then quote_before_bracket n s (i + 1)
    else if at s i == b'$'
    then ltb (i + 2) n && (at s (i + 1) == b'v') && is_digit_char (at s (i + 2))
    else false

-- the tokens of one character, apart from `[` and the quote
unfoldable pub single : ℕ → Option TokenType
single c =
    if c == b'|'
    then some pipe
    else if c == b'('
    then some lparen
    else if c == b')'
    then some rparen
    else if c == b'*'
    then some star
    else if c == b'+'
    then some plus
    else if c == b'?'
    then some question
    else if c == b'^'
    then some anchor_start
    else if c == b'$'
    then some anchor_end
    else if c == b'.'
    then some dot
    else if c == b'@'
    then some at_sign
    else if c == b':'
    then some colon
    else if c == b']'
    then some rbracket
    else if c == b'='
    then some equals
    else if c == b','
    then some comma
    else none

abbrev pub is_ident : TokenType → Bool
is_ident ident = true
is_ident _ = false

-- the default case of the switch
unfoldable pub lex_word : ℕ → Lexer → Token × Lexer
unfolding scan_ident scan_integer advance fail_with
lex_word c lx =
    if is_ident_start c
    then scan_ident lx
    else if is_digit_char c
    then scan_integer false lx
    else if (c == b'-')
        && ltb (lx.pos + 1) (length lx.source)
        && is_digit_char (at lx.source (lx.pos + 1))
    then scan_integer true (advance 1 lx)
    else (mark error, fail_with (unrecognized c lx.line lx.column) lx)

-- the switch on the character at the cursor
unfoldable pub lex_char : ℕ → Option TokenType → Lexer → Token × Lexer
unfolding lex_word scan_closed advance bracket_is_table_key
lex_char c (some type) lx = (mark type, advance 1 lx)
lex_char c none lx =
    if c == b'['
    then if is_ident lx.prev_type && bracket_is_table_key lx
      then (mark lbracket, advance 1 lx)
      else scan_closed charclass b']' (advance 1 lx)
    else if c == 39
    then scan_closed lit 39 (advance 1 lx)
    else lex_word c lx

-- `lexer->prev_type = tok.type`
unfoldable pub remember : Token × Lexer → Token × Lexer
unfolding token_type
remember (token, lx) = (token, record lx { prev_type = token_type token })

-- `snobol_lexer_next` behind the error and the peeked token
unfoldable pub lex_fresh : Lexer → Token × Lexer
unfolding skip_whitespace lex_char single remember
lex_fresh lx =
    let skipped = skip_whitespace (length lx.source) lx in
    let c = at skipped.source skipped.pos in
    if leb (length skipped.source) skipped.pos || (c == 0)
    then (mark eof, skipped)
    else remember (lex_char c (single c) skipped)

-- `snobol_lexer_next`
unfoldable pub lexer_next : Lexer → Token × Lexer
unfolding lex_fresh token_type lexer_has_error
lexer_next lx =
    if lexer_has_error lx
    then (mark error, lx)
    else if lx.has_peek
    then (lx.peek_token, record lx { has_peek = false; prev_type = token_type lx.peek_token })
    else lex_fresh lx

abbrev pub peeked : Token × Lexer → Token × Lexer
peeked (token, lx) = (token, record lx { peek_token = token; has_peek = true })

-- `snobol_lexer_peek`
unfoldable pub lexer_peek : Lexer → Token × Lexer
unfolding lexer_next
lexer_peek lx = if lx.has_peek then (lx.peek_token, lx) else peeked (lexer_next lx)

-- `snobol_lexer_state_t`
pub record LexerState : Type 0 where
  pub pos : ℕ
  pub line : ℕ
  pub column : ℕ
  pub peek_token : Token
  pub has_peek : Bool
  pub prev_type : TokenType

-- `snobol_lexer_save`
unfoldable pub lexer_save : Lexer → LexerState
lexer_save lx = record {
  pos = lx.pos;
  line = lx.line;
  column = lx.column;
  peek_token = lx.peek_token;
  has_peek = lx.has_peek;
  prev_type = lx.prev_type;
}

-- `snobol_lexer_restore`
unfoldable pub lexer_restore : Lexer → LexerState → Lexer
lexer_restore lx state = record lx {
  pos = state.pos;
  line = state.line;
  column = state.column;
  peek_token = state.peek_token;
  has_peek = state.has_peek;
  prev_type = state.prev_type;
}
