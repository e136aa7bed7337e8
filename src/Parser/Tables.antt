-- ===== src/Parser/Tables.antt =====
-- Register assignment and table access: `parse_table_or_assign` of core/src/parser.c.
use libsnobol.Base.{ℕ, Option, none, some, leb, if◌then◌else◌}
use libsnobol.Compiler.Ast.{Node}
use libsnobol.Lexer.{eof, ident, integer, equals, lit, anchor_end, rbracket}
use libsnobol.Parser.{
  Parse, Read, ◌>>=◌, return, refuse, skip_token, peek, is, Message, next_is, expect, or_lexical,
  value_of,
}
use libsnobol.Parser.Calls.{Grammar, repeated}
use libsnobol.Parser.Targets.{v_register, known_capture}
use libsnobol.Vm.Bytes.{Bytes}
use libsnobol.Vm.State.{max_vars}

unfoldable pub found_capture : Bytes → Option ℕ → Parse ℕ
found_capture name (some reg) = return reg
found_capture name none = refuse (Message.no_capture name)

-- the variable that is assigned to, `vN` or the register of a capture name
unfoldable pub assigned : Bytes → Option ℕ → Parse ℕ
assigned name (some reg) = return reg
assigned name none = known_capture name >>= found_capture name

unfoldable pub assign_from : ℕ → Read → Parse Node
assign_from var tok =
    if is tok.type integer
    then if leb max_vars (value_of tok.token)
      then refuse (Message.register_range (value_of tok.token))
      else skip_token >>= (λ _. return (Node.assign var (value_of tok.token)))
    else refuse Message.no_register_number

-- the assignment behind the peeked `=`
unfoldable pub parse_assign : Bytes → Parse Node
parse_assign name = do
  _ ← skip_token
  var ← assigned name (v_register name)
  tok ← peek
  assign_from var tok

unfoldable pub table_register : Option ℕ → Parse Node
table_register none = refuse Message.no_key_register
table_register (some reg) =
    if leb max_vars reg
    then refuse (Message.key_range reg)
    else skip_token >>= (λ _. return (Node.reg_ref reg))

-- the key `$vN` behind the `$`
unfoldable pub register_key : Read → Parse Node
register_key tok =
    if is tok.type ident
    then table_register (v_register tok.chars)
    else refuse Message.no_key_register

-- the key of a table access
unfoldable pub table_key : Bytes → Read → Parse Node
table_key name tok = or_lexical tok.type (
    if is tok.type lit
    then skip_token >>= (λ _. return (Node.literal tok.chars))
    else if is tok.type anchor_end
    then skip_token >>= (λ _. peek >>= register_key)
    else refuse (Message.invalid_key name))

-- the value behind `TABLE[key] =`
unfoldable pub table_value : Grammar → Bytes → Node → Parse Node
table_value rec name key = do
  _ ← skip_token
  b ← next_is eof
  (if b
      then refuse Message.no_value
      else rec repeated >>= (λ value. return (Node.table_update name key value)))

-- the table access behind the peeked `[`
unfoldable pub parse_table : Grammar → Bytes → Parse Node
parse_table rec name = do
  _ ← skip_token
  tok ← peek
  key ← table_key name tok
  _ ← expect rbracket
  b ← next_is equals
  (if b then table_value rec name key else return (Node.table_access name key))

-- `parse_table_or_assign`
unfoldable pub parse_table_or_assign : Grammar → Bytes → Parse Node
parse_table_or_assign rec name = do
  b ← next_is equals
  (if b then parse_assign name else parse_table rec name)
