-- ===== src/Parser/Grammar.antt =====
-- The grammar of core/src/parser.c: `parse_statement`, `parse_alternation`, `parse_concatenation` and
-- `snobol_parser_parse`.
use libsnobol.Base.{
  ℕ, zero, suc, Bool, true, false, ◌||◌, List, [], ◌∷◌, Option, none, some, if◌then◌else◌,
}
use libsnobol.Compiler.Ast.{Node, Parts, nil, cons}
use libsnobol.Lexer.{
  TokenType, eof, ident, lit, anchor_end, anchor_start, at_sign, lparen, rparen, charclass, colon,
  pipe, dot,
}
use libsnobol.Parser.{
  Parser, ParserError, Parse, gives, endless, Read, ◌>>=◌, return, refuse, skip_token, peek,
  save_lexer, restore_lexer, is, Message, next_is, expect, or_lexical,
}
use libsnobol.Parser.Calls.{
  Level, statement, alternation, alternatives, concatenation, repeated, primary, Grammar,
}
use libsnobol.Parser.Targets.{v_register, parse_naming_target}
use libsnobol.Slots.{same}
use libsnobol.Vm.Bytes.{Bytes}
use libsnobol.Parser.Primary.{parse_primary, parse_repetition}

-- the parts in the order of the source, before `parts`
unfoldable pub in_order : List Node → Parts → Parts
in_order [] parts = parts
in_order (node ∷ nodes) parts = in_order nodes (cons node parts)

-- the end of `parse_concatenation`
unfoldable pub concatenated : List Node → Parse Node
concatenated [] = refuse Message.no_pattern_element
concatenated (node ∷ []) = return node
concatenated (node ∷ more ∷ nodes) = return (Node.concat (in_order (node ∷ more ∷ nodes) nil))

-- the identifier behind a `$`
unfoldable pub register_names : Option ℕ → Parse Bool
register_names (some reg) = return true
register_names none = refuse Message.indirect_reference

-- whether a `$` behind a part names it
unfoldable pub after_dollar : Read → Parse Bool
after_dollar next =
    if is next.type at_sign
    then return true
    else if is next.type ident
    then register_names (v_register next.chars)
    else return false

-- a `$` that names is consumed, another is not
unfoldable pub dollar_names : Parse Bool
dollar_names = do
  state ← save_lexer
  _ ← skip_token
  next ← peek
  naming ← after_dollar next
  (if naming then return true else restore_lexer state >>= (λ _. return false))

-- whether a naming operator stands behind a part, which is then consumed
unfoldable pub is_naming : TokenType → Parse Bool
is_naming type =
    if is type dot
    then skip_token >>= (λ _. return true)
    else if is type anchor_end
    then dollar_names
    else return false

-- the match-naming of the last part
unfoldable pub name_part : Grammar → Node → List Node → Parse Node
name_part rec node nodes = do
  reg ← parse_naming_target
  rec (concatenation (Node.capture reg node ∷ nodes))

-- whether a primary starts at a token; the look ahead behind an identifier changes nothing of this
unfoldable pub starts_primary : TokenType → Bool
starts_primary type =
    is type lit
    || is type charclass
    || is type lparen
    || is type anchor_start
    || is type anchor_end
    || is type at_sign
    || is type ident

-- `snobol_lexer_save`, `advance`, `peek` and `snobol_lexer_restore` behind an identifier
unfoldable pub look_behind : TokenType → Parse Unit
look_behind type =
    if is type ident
    then save_lexer >>= (λ state. skip_token >>= (λ _. peek >>= (λ next. restore_lexer state)))
    else return tt

-- the round of `parse_concatenation` behind the match-naming
unfoldable pub next_part : Grammar → List Node → TokenType → Parse Node
next_part rec parts type = do
  _ ← look_behind type
  (if starts_primary type
      then rec repeated >>= (λ part. rec (concatenation (part ∷ parts)))
      else concatenated parts)

-- the loop of `parse_concatenation`
unfoldable pub parse_concatenation : Grammar → List Node → Parse Node
parse_concatenation rec [] = peek >>= λ tok. next_part rec [] tok.type
parse_concatenation rec (node ∷ nodes) = do
  tok ← peek
  naming ← is_naming tok.type
  (if naming then name_part rec node nodes else next_part rec (node ∷ nodes) tok.type)

-- the loop of `parse_alternation`
unfoldable pub parse_alternatives : Grammar → Node → Parse Node
parse_alternatives rec left = do
  b ← next_is pipe
  (if b
      then skip_token
        >>= (λ _. rec (concatenation []) >>= (λ right. rec (alternatives (Node.alt left right))))
      else return left)

-- the goto behind the `:`
unfoldable pub parse_goto : Node → Parse Node
parse_goto pattern = do
  _ ← expect lparen
  tok ← peek
  (if is tok.type ident
      then skip_token >>= (λ _.
        expect rparen
        >>= (λ _. return (Node.concat (cons pattern (cons (Node.goto (some tok.chars)) nil)))))
      else refuse Message.no_goto_label)

unfoldable pub seen : Bytes → List Bytes → Bool
seen name [] = false
seen name (known ∷ labels) = let rest = seen name labels in if same known name then true else rest

-- the detection of a duplicate label, and its record
unfoldable pub record_label : Bytes → Parse Unit
record_label name p =
    (if seen name p.seen_labels then refuse (Message.duplicate_label name) else λ q.
    gives tt (record q { seen_labels = name ∷ q.seen_labels }))
      p

-- the label behind its identifier, or none with the lexer put back
unfoldable pub statement_label : Parse (Option Bytes)
statement_label = do
  tok ← peek
  (if is tok.type ident
      then save_lexer >>= (λ state. skip_token >>= (λ _. next_is colon >>= (λ b.
        if b
        then skip_token >>= (λ _. return (some tok.chars))
        else restore_lexer state >>= (λ _. return none))))
      else return none)

-- the statement behind what may be its label
unfoldable pub labelled_statement : Grammar → Option Bytes → Parse Node
labelled_statement rec (some name) = do
  _ ← record_label name
  target ← rec statement
  return (Node.label (some name) target)
labelled_statement rec none = do
  pattern ← rec alternation
  b ← next_is colon
  (if b then skip_token >>= (λ _. parse_goto pattern) else return pattern)

-- one call of a parsing function
unfoldable pub body : Grammar → Level → Parse Node
body rec statement = statement_label >>= labelled_statement rec
body rec alternation = rec (concatenation []) >>= λ left. rec (alternatives left)
body rec (alternatives left) = parse_alternatives rec left
body rec (concatenation parts) = parse_concatenation rec parts
body rec repeated = parse_repetition rec
body rec primary = parse_primary rec

-- the parsing functions, with the depth of the calls as fuel
unfoldable pub parse : ℕ → Grammar
parse zero level p = endless p
parse (suc fuel) level p = body (parse fuel) level p

-- the test for trailing tokens, which an error that is there already skips
unfoldable pub trailing_token : TokenType → Node → Parse Node
trailing_token type ast =
    or_lexical type (if is type eof then return ast else refuse Message.trailing_token)

unfoldable pub trailing_unless : Option ParserError → Node → Parse Node
trailing_unless (some e) ast = return ast
trailing_unless none ast = peek >>= λ tok. trailing_token tok.type ast

unfoldable pub trailing : Node → Parse Node
trailing ast p = trailing_unless p.failure ast p

-- the resets of `snobol_parser_parse`
unfoldable pub cleared : Parser → Parser
cleared p = record p {
  failure = none;
  seen_labels = [];
  capture_reg_counter = 0;
  capture_names = [];
}

-- `snobol_parser_parse`
unfoldable pub parser_parse : ℕ → Parse Node
parser_parse fuel p = (parse fuel statement >>= trailing) (cleared p)
