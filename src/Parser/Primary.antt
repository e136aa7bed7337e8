-- ===== src/Parser/Primary.antt =====
-- The primaries of the grammar of core/src/parser.c: `parse_function_call`, `parse_primary` and
-- `parse_repetition`.
use libsnobol.Base.{◌||◌, if◌then◌else◌}
use libsnobol.Compiler.Ast.{Node, nil, cons, AnchorType}
use libsnobol.Lexer.{
  TokenType, ident, integer, equals, lit, anchor_end, anchor_start, at_sign, lparen, rparen,
  lbracket, charclass, star, plus, question,
}
use libsnobol.Parser.{
  Parse, ◌>>=◌, return, refuse, skip_token, peek, is, Message, next_is, expect, or_lexical, codes,
}
use libsnobol.Parser.Calls.{alternation, primary, Grammar, function_named, call}
use libsnobol.Parser.Tables.{parse_table_or_assign}
use libsnobol.Parser.Targets.{next_register}
use libsnobol.Slots.{same}
use libsnobol.Vm.Bytes.{Bytes}

-- ARB, FENCE and REM without arguments
unfoldable pub bare : Bytes → Parse Node
bare name =
    if same name (codes "ARB")
    then return (Node.arbno (Node.len 1))
    else if same name (codes "FENCE")
    then return Node.fence
    else if same name (codes "REM")
    then return Node.rem
    else refuse Message.bare_identifier

-- `parse_function_call`, with the peeked identifier
unfoldable pub parse_function_call : Grammar → Bytes → Parse Node
parse_function_call rec name = do
  _ ← skip_token
  next ← peek
  (if is next.type equals || is next.type lbracket
      then parse_table_or_assign rec name
      else if is next.type charclass
      then refuse Message.key_after_identifier
      else if is next.type lparen
      then skip_token >>= (λ _. call rec (function_named name))
      else bare name)

-- the group behind the `(`
unfoldable pub group : Grammar → Parse Node
group rec = do inner ← rec alternation; _ ← expect rparen; return inner

-- the end anchor behind the `$`
unfoldable pub end_anchor : Parse Node
end_anchor = do
  b ← next_is ident
  (if b then refuse Message.indirect_reference else return (Node.anchor AnchorType.anchor_end))

-- the capture behind the `@`
unfoldable pub named_capture : Grammar → Parse Node
named_capture rec = do
  tok ← peek
  (if is tok.type ident
      then skip_token >>= (λ _.
        next_register tok.chars >>= (λ reg. rec primary >>= (λ sub. return (Node.capture reg sub))))
      else refuse Message.no_capture_target)

-- the default case of `parse_primary`
unfoldable pub no_primary : TokenType → Parse Node
no_primary type =
    or_lexical type
      (if is type integer then refuse Message.stray_integer else refuse Message.unexpected_token)

-- `parse_primary`
unfoldable pub parse_primary : Grammar → Parse Node
parse_primary rec = do
  tok ← peek
  (if is tok.type lit
      then skip_token >>= (λ _. return (Node.literal tok.chars))
      else if is tok.type charclass
      then skip_token >>= (λ _. return (Node.span tok.chars))
      else if is tok.type lparen
      then skip_token >>= (λ _. group rec)
      else if is tok.type anchor_start
      then skip_token >>= (λ _. return (Node.anchor AnchorType.anchor_start))
      else if is tok.type anchor_end
      then skip_token >>= (λ _. end_anchor)
      else if is tok.type at_sign
      then skip_token >>= (λ _. named_capture rec)
      else if is tok.type ident
      then parse_function_call rec tok.chars
      else no_primary tok.type)

-- `parse_repetition`
unfoldable pub parse_repetition : Grammar → Parse Node
parse_repetition rec = do
  node ← rec primary
  tok ← peek
  (if is tok.type star
      then skip_token >>= (λ _. return (Node.arbno node))
      else if is tok.type plus
      then skip_token >>= (λ _. return (Node.concat (cons node (cons (Node.arbno node) nil))))
      else if is tok.type question
      then skip_token >>= (λ _. return (Node.repetition node 0 1))
      else return node)
