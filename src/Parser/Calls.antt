-- ===== src/Parser/Calls.antt =====
-- The calls of the pattern functions: `parse_function_call`, `parse_dynamic_eval` and `parse_emit` of
-- core/src/parser.c. The parsing functions that call each other are one function on levels, and a
-- body takes it as an argument.
use libsnobol.Base.{
  ℕ, ◌+◌, ◌%◌, ◌^◌, Bool, ◌||◌, List, [], ◌∷◌, Option, none, some, ltb, leb, if◌then◌else◌,
}
use libsnobol.Compiler.Ast.{Node, minus_one}
use libsnobol.Lexer.{TokenType, ident, lit, at_sign, charclass, rparen, comma}
use libsnobol.Parser.{
  Parse, Read, ◌>>=◌, return, refuse, skip_token, peek, is, Message, next_is, expect,
  parse_integer_arg, codes,
}
use libsnobol.Parser.Targets.{v_register, known_capture}
use libsnobol.Strings.{has_prefix}
use libsnobol.Vm.Bytes.{Bytes, utf8_peek_next}

-- the parsing functions that call each other: `parse_statement`, `parse_alternation` and its loop,
-- the loop of `parse_concatenation` with the parts so far, last first, `parse_repetition` and
-- `parse_primary`
pub data Level : Type 0 where
  statement alternation : Level
  alternatives : (left : Node) → Level
  concatenation : (parts : List Node) → Level
  repeated primary : Level

abbrev pub Grammar : Type 0
Grammar = Level → Parse Node

pub data Function : Type 0 where
  span break_ breakx any notany : Function
  len pos tab rpos rtab : Function
  eval emit arb arbno bal fence rem repeat abort fail succeed : Function

-- the names in the order of the tests
abbrev pub function_names : List (Bytes × Function)
function_names =
    (codes "SPAN", span)
    ∷ (codes "BREAK", break_)
    ∷ (codes "BREAKX", breakx)
    ∷ (codes "ANY", any)
    ∷ (codes "NOTANY", notany)
    ∷ (codes "LEN", len)
    ∷ (codes "EVAL", eval)
    ∷ (codes "EMIT", emit)
    ∷ (codes "POS", pos)
    ∷ (codes "TAB", tab)
    ∷ (codes "ARB", arb)
    ∷ (codes "ARBNO", arbno)
    ∷ (codes "BAL", bal)
    ∷ (codes "FENCE", fence)
    ∷ (codes "REM", rem)
    ∷ (codes "RPOS", rpos)
    ∷ (codes "RTAB", rtab)
    ∷ (codes "repeat", repeat)
    ∷ (codes "ABORT", abort)
    ∷ (codes "FAIL", fail)
    ∷ (codes "SUCCEED", succeed)
    ∷ []

-- the first name that begins with the identifier: `strncmp(name, "…", name_len) == 0`
unfoldable pub first_named : Bytes → List (Bytes × Function) → Option Function
first_named name [] = none
first_named name ((known, f) ∷ fs) =
    let rest = first_named name fs in if has_prefix name known then some f else rest

unfoldable pub function_named : Bytes → Option Function
function_named name = first_named name function_names

unfoldable pub closed : Node → Parse Node
closed node = expect rparen >>= λ _. return node

abbrev pub is_string : TokenType → Bool
is_string type = is type lit || is type charclass

-- the argument of SPAN, BREAK, BREAKX, ANY and NOTANY
unfoldable pub string_argument : Bytes → (Bytes → Node) → Read → Parse Node
string_argument function make tok =
    if is_string tok.type
    then skip_token >>= (λ _. closed (make tok.chars))
    else refuse (Message.no_string function)

unfoldable pub string_call : Bytes → (Bytes → Node) → Parse Node
string_call function make = peek >>= string_argument function make

unfoldable pub any_call : Parse Node
any_call = do
  tok ← peek
  (if is tok.type rparen
      then skip_token >>= (λ _. return (Node.any []))
      else string_argument (codes "ANY") Node.any tok)

unfoldable pub integer_call : Bytes → (ℕ → Node) → Parse Node
integer_call function make = parse_integer_arg function >>= λ n. closed (make n)

-- FENCE() and REM()
unfoldable pub no_argument_call : Bytes → Node → Parse Node
no_argument_call function node = do
  b ← next_is rparen
  (if b then skip_token >>= (λ _. return node) else refuse (Message.no_arguments function))

unfoldable pub one_pattern : Node → Parse Node
one_pattern sub = do
  b ← next_is comma
  (if b then refuse Message.one_pattern else closed (Node.arbno sub))

unfoldable pub arbno_call : Grammar → Parse Node
arbno_call rec = do
  b ← next_is rparen
  (if b then refuse Message.one_pattern else rec repeated >>= one_pattern)

unfoldable pub delimiter : Option (ℕ × ℕ) → Parse ℕ
delimiter (some (cp, bytes)) = return cp
delimiter none = refuse Message.bal_encoding

-- a delimiter of BAL
unfoldable pub bal_delimiter : Read → Parse ℕ
bal_delimiter tok =
    if is tok.type lit
    then skip_token >>= (λ _. delimiter (utf8_peek_next tok.chars 0))
    else refuse Message.bal_delimiters

unfoldable pub bal_closing : Parse ℕ
bal_closing = do
  _ ← skip_token
  tok ← peek
  (if is tok.type rparen then refuse Message.bal_closing else bal_delimiter tok)

unfoldable pub bal_second : ℕ → Parse Node
bal_second open_cp = do
  b ← next_is comma
  close_cp ← (if b then bal_closing else return 41)
  closed (Node.bal open_cp close_cp)

unfoldable pub bal_call : Parse Node
bal_call = do
  tok ← peek
  (if is tok.type rparen
      then skip_token >>= (λ _. return (Node.bal 40 41))
      else bal_delimiter tok >>= bal_second)

-- an `int32_t` word in the order of the int32_order numbers
abbrev pub int32_order : ℕ → ℕ
int32_order w = (w + 2 ^ 31) % 2 ^ 32

-- the tests on the bounds of `repeat`
unfoldable pub repeat_bounds : Node → ℕ → ℕ → Parse Node
repeat_bounds sub low high =
    if leb (2 ^ 31) low
    then refuse (Message.negative_min low)
    else if ltb (int32_order high) (int32_order low)
    then refuse (Message.max_below_min high low)
    else return (Node.repetition sub low high)

unfoldable pub repeat_max : Node → ℕ → Parse Node
repeat_max sub low = do
  _ ← expect comma
  high ← parse_integer_arg (codes "repeat")
  _ ← expect rparen
  repeat_bounds sub low high

unfoldable pub repeat_min : Node → Parse Node
repeat_min sub = do
  _ ← expect comma
  low ← parse_integer_arg (codes "repeat")
  b ← next_is rparen
  (if b then refuse Message.three_arguments else repeat_max sub low)

unfoldable pub repeat_call : Grammar → Parse Node
repeat_call rec = do
  b ← next_is rparen
  (if b then refuse Message.three_arguments else rec repeated >>= repeat_min)

-- `parse_dynamic_eval`
unfoldable pub parse_dynamic_eval : Grammar → Parse Node
parse_dynamic_eval rec = rec alternation >>= λ expr. closed (Node.dynamic_eval expr)

unfoldable pub known_register : Bytes → Option ℕ → Parse ℕ
known_register name (some reg) = return reg
known_register name none = refuse (Message.unknown_capture name)

-- the register of `vN` or of a capture name
unfoldable pub emit_register : Bytes → Option ℕ → Parse ℕ
emit_register name (some reg) = return reg
emit_register name none = known_capture name >>= known_register name

unfoldable pub emit_name : Parse Node
emit_name = do
  tok ← peek
  (if is tok.type ident
      then emit_register tok.chars (v_register tok.chars)
        >>= (λ reg. skip_token >>= (λ _. closed (Node.emit none reg)))
      else refuse Message.no_emit_target)

-- `parse_emit`
unfoldable pub parse_emit : Parse Node
parse_emit = do
  tok ← peek
  (if is tok.type lit
      then skip_token >>= (λ _. closed (Node.emit (some tok.chars) minus_one))
      else if is tok.type at_sign
      then skip_token >>= (λ _. emit_name)
      else refuse Message.no_emit_argument)

-- the calls of `parse_function_call` behind the `(`
unfoldable pub call : Grammar → Option Function → Parse Node
call rec none = refuse Message.unknown_function
call rec (some span) = string_call (codes "SPAN") Node.span
call rec (some break_) = string_call (codes "BREAK") Node.break_
call rec (some breakx) = string_call (codes "BREAKX") Node.breakx
call rec (some any) = any_call
call rec (some notany) = string_call (codes "NOTANY") Node.notany
call rec (some len) = integer_call (codes "LEN") Node.len
call rec (some pos) = integer_call (codes "POS") Node.pos
call rec (some tab) = integer_call (codes "TAB") Node.tab
call rec (some rpos) = integer_call (codes "RPOS") Node.rpos
call rec (some rtab) = integer_call (codes "RTAB") Node.rtab
call rec (some eval) = parse_dynamic_eval rec
call rec (some emit) = parse_emit
call rec (some arb) = closed (Node.arbno (Node.len 1))
call rec (some arbno) = arbno_call rec
call rec (some bal) = bal_call
call rec (some fence) = no_argument_call (codes "FENCE") Node.fence
call rec (some rem) = no_argument_call (codes "REM") Node.rem
call rec (some repeat) = repeat_call rec
call rec (some abort) = closed Node.abort
call rec (some fail) = closed Node.fail
call rec (some succeed) = closed Node.succeed
