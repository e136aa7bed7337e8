-- ===== src/Vm/Handlers/Matching.antt =====
-- OP_LIT, OP_ANY, OP_NOTANY, OP_SPAN, OP_BREAK, OP_BREAKX, OP_BAL and OP_LEN of core/src/vm_exec.c.
use libsnobol.Base.{
  ℕ, ◌+◌, ◌-◌, Bool, true, false, not, ◌&&◌, Option, none, some, ltb, leb, ◌==◌, if◌then◌else◌,
  length, zero, suc,
}
use libsnobol.Vm.Bytes.{Bytes, at, read_u16, read_u32, utf8_peek_next}
use libsnobol.Vm.Choices.{push_choice}
use libsnobol.Vm.Classes.{
  Ranges, get_ranges, is_torn, Bitmap, ranges_to_ascii_bitmap, bitmap_test, range_contains,
  bitmap_single_ascii_byte,
}
use libsnobol.Vm.Cursor.{skip_codepoints, scan_bytes, scan_codepoints, find_byte, balance}
use libsnobol.Vm.Handlers.Outcome.{
  Outcome, running, outside, past_bytecode, backtrack, backtrack_and_leave,
}
use libsnobol.Vm.State.{Vm}

-- `memcmp(s + pos, bc + off, len) == 0`
unfoldable pub same_bytes : ℕ → Bytes → ℕ → Bytes → ℕ → Bool
same_bytes zero s i t j = true
same_bytes (suc n) s i t j = (at s i == at t j) && same_bytes n s (i + 1) t (j + 1)

unfoldable pub op_lit : Vm → Outcome
unfolding same_bytes
op_lit vm =
    let (off, ip) = read_u32 vm.bc vm.ip in
    let (len, ip') = read_u32 vm.bc ip in
    let next = if off == ip' then ip' + len else ip' in
    if leb len (length vm.s - vm.pos) && ltb (length vm.bc) (off + len)
    then outside past_bytecode (record vm { ip = next })
    else if leb len (length vm.s - vm.pos) && same_bytes len vm.s vm.pos vm.bc off
    then running (record vm { ip = next; pos = vm.pos + len })
    else backtrack (record vm { ip = next })

-- the test that the class opcodes use: the ASCII bitmap where the ranges fit one
pub data Class : Type 0 where
  ascii : Bitmap → Class
  wide : Ranges → Class
  missing : Class

class_of : Bytes → Option Ranges → Class
class_of bc none = missing
class_of bc (some r) = elim (ranges_to_ascii_bitmap bc r) [ none ↦ wide r | some map ↦ ascii map ]

unfoldable pub find_class : Bytes → ℕ → Class
unfolding class_of
find_class bc set_id = class_of bc (get_ranges bc set_id)

-- whether the class holds a code point, `ranges && range_contains(…)`
unfoldable pub class_contains : Bytes → Class → ℕ → Bool
class_contains bc (ascii map) cp = bitmap_test map cp
class_contains bc (wide r) cp = range_contains bc r cp
class_contains bc missing cp = false

-- OP_ANY: the position behind one character of the class
unfoldable pub any_step : Class → Bytes → Bytes → ℕ → Option ℕ
any_step (ascii map) bc s pos =
    if ltb pos (length s) && bitmap_test map (at s pos) then some (pos + 1) else none
any_step (wide r) bc s pos = elim (utf8_peek_next s pos) [
  | none ↦ none
  | some (cp, bytes) ↦ if range_contains bc r cp then some (pos + bytes) else none
]
any_step missing bc s pos = none

-- OP_NOTANY: the position behind one character outside the class
unfoldable pub notany_step : Class → Bytes → Bytes → ℕ → Option ℕ
notany_step (ascii map) bc s pos =
    if ltb pos (length s) && not (bitmap_test map (at s pos)) then some (pos + 1) else none
notany_step (wide r) bc s pos = elim (utf8_peek_next s pos) [
  | none ↦ none
  | some (cp, bytes) ↦ if range_contains bc r cp then none else some (pos + bytes)
]
notany_step missing bc s pos = elim (utf8_peek_next s pos) [
  | none ↦ none
  | some (cp, bytes) ↦ some (pos + bytes)
]

-- OP_SPAN: one character of the class, then as many as there are
unfoldable pub span_step : Class → Bytes → Bytes → ℕ → Option ℕ
span_step (ascii map) bc s pos =
    if ltb pos (length s) && bitmap_test map (at s pos)
    then some (scan_bytes (length s) (bitmap_test map) s (pos + 1))
    else none
span_step (wide r) bc s pos = elim (utf8_peek_next s pos) [
  | none ↦ none
  | some (cp, bytes) ↦
      if range_contains bc r cp
      then some (scan_codepoints (length s) (range_contains bc r) s (pos + bytes))
      else none
]
span_step missing bc s pos = none

-- OP_BREAK, OP_BREAKX: up to the next character of the class; one byte is found by `memchr`
unfoldable pub break_ascii : Option ℕ → Bitmap → Bytes → ℕ → ℕ
break_ascii none map s pos = scan_bytes (length s) (λ c. not (bitmap_test map c)) s pos
break_ascii (some single) map s pos =
    if ltb pos (length s)
    then find_byte (length s) single s pos
    else scan_bytes (length s) (λ c. not (bitmap_test map c)) s pos

unfoldable pub break_step : Class → Bytes → Bytes → ℕ → ℕ
unfolding break_ascii
break_step (ascii map) bc s pos = break_ascii (bitmap_single_ascii_byte map) map s pos
break_step (wide r) bc s pos = scan_codepoints (length s) (λ cp. not (range_contains bc r cp)) s pos
break_step missing bc s pos = scan_codepoints (length s) (λ cp. true) s pos

-- `pos = p`, or backtrack where there is no such position
unfoldable pub move : Option ℕ → Vm → Outcome
move none vm = backtrack vm
move (some p) vm = running (record vm { pos = p })

unfoldable pub op_any : Vm → Outcome
unfolding any_step find_class move
op_any vm =
    let (set_id, ip) = read_u16 vm.bc vm.ip in
    if is_torn vm.bc (get_ranges vm.bc set_id)
    then outside past_bytecode (record vm { ip = ip })
    else move (any_step (find_class vm.bc set_id) vm.bc vm.s vm.pos) (record vm { ip = ip })

unfoldable pub op_notany : Vm → Outcome
unfolding notany_step find_class move
op_notany vm =
    let (set_id, ip) = read_u16 vm.bc vm.ip in
    if is_torn vm.bc (get_ranges vm.bc set_id)
    then outside past_bytecode (record vm { ip = ip })
    else move (notany_step (find_class vm.bc set_id) vm.bc vm.s vm.pos) (record vm { ip = ip })

unfoldable pub op_span : Vm → Outcome
unfolding span_step find_class move
op_span vm =
    let (set_id, ip) = read_u16 vm.bc vm.ip in
    if is_torn vm.bc (get_ranges vm.bc set_id)
    then outside past_bytecode (record vm { ip = ip })
    else move (span_step (find_class vm.bc set_id) vm.bc vm.s vm.pos) (record vm { ip = ip })

unfoldable pub op_break : Vm → Outcome
unfolding break_step find_class
op_break vm =
    let (set_id, ip) = read_u16 vm.bc vm.ip in
    if is_torn vm.bc (get_ranges vm.bc set_id)
    then outside past_bytecode (record vm { ip = ip })
    else running
        (record vm { ip = ip; pos = break_step (find_class vm.bc set_id) vm.bc vm.s vm.pos })

-- the bytes of the break character, one where no code point is read
unfoldable pub break_width : Bytes → ℕ → ℕ
break_width s pos = elim (utf8_peek_next s pos) [ none ↦ 1 | some (_, bytes) ↦ bytes ]

unfoldable pub op_breakx : Vm → Outcome
unfolding break_step find_class break_width
op_breakx vm =
    let (set_id, ip) = read_u16 vm.bc vm.ip in
    let p = break_step (find_class vm.bc set_id) vm.bc vm.s vm.pos in
    let moved = record vm { ip = ip; pos = p } in
    if is_torn vm.bc (get_ranges vm.bc set_id)
    then outside past_bytecode (record vm { ip = ip })
    else running (
        if ltb p (length vm.s)
        then push_choice (vm.ip - 1) (p + break_width vm.s p) moved
        else moved)

unfoldable pub starts_with_cp : Bytes → ℕ → ℕ → Bool
starts_with_cp s pos cp = elim (utf8_peek_next s pos) [ none ↦ false | some (c, _) ↦ c == cp ]

unfoldable pub op_bal : Vm → Outcome
unfolding starts_with_cp move
op_bal vm =
    let (open_cp, ip) = read_u32 vm.bc vm.ip in
    let (close_cp, ip') = read_u32 vm.bc ip in
    let v = record vm { ip = ip' } in
    if starts_with_cp vm.s vm.pos open_cp
    then move (balance (suc (length vm.s)) open_cp close_cp vm.s vm.pos 0) v
    else backtrack_and_leave v

unfoldable pub op_len : Vm → Outcome
unfolding move
op_len vm =
    let (n, ip) = read_u32 vm.bc vm.ip in
    move (skip_codepoints n vm.s vm.pos) (record vm { ip = ip })
