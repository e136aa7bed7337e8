-- ===== src/Vm/Cursor.antt =====
-- The walks of the cursor over the subject that the opcodes make: loops of core/src/vm_exec.c.
use libsnobol.Base.{
  ℕ, zero, suc, ◌+◌, ◌-◌, ◌/◌, Bool, true, false, ◌&&◌, Option, none, some, ltb, leb, ◌==◌,
  if◌then◌else◌, length,
}
use libsnobol.Vm.Bytes.{Bytes, at, utf8_peek_next}

-- OP_LEN: `n` code points from `p` on, `none` where the subject has fewer
unfoldable pub skip_codepoints : ℕ → Bytes → ℕ → Option ℕ
skip_codepoints zero s p = some p
skip_codepoints (suc n) s p = elim (utf8_peek_next s p) [
  | none ↦ none
  | some (_, bytes) ↦ skip_codepoints n s (p + bytes)
]

-- `(c & 0xC0) == 0x80`
abbrev pub is_continuation : ℕ → Bool
is_continuation c = c / 64 == 2

-- OP_RPOS, OP_RTAB: back over continuation bytes
unfoldable pub back_over : Bytes → ℕ → ℕ
back_over s zero = zero
back_over s (suc t) =
    let rest = back_over s t in if is_continuation (at s (suc t)) then rest else suc t

-- OP_RPOS, OP_RTAB: `n` code points back from `target`
unfoldable pub walk_back : ℕ → Bytes → ℕ → ℕ
unfolding back_over
walk_back zero s target = target
walk_back (suc n) s zero = zero
walk_back (suc n) s (suc t) = walk_back n s (back_over s t)

-- OP_POS, OP_TAB: over continuation bytes, with the bytes left as fuel
unfoldable pub on_over : ℕ → Bytes → ℕ → ℕ
on_over zero s t = t
on_over (suc fuel) s t =
    let rest = on_over fuel s (t + 1) in
    if ltb t (length s) && is_continuation (at s t) then rest else t

-- OP_POS, OP_TAB: `n` code points on from `target`
unfoldable pub walk_on : ℕ → Bytes → ℕ → ℕ
unfolding on_over
walk_on zero s target = target
walk_on (suc n) s target =
    let rest = walk_on n s (on_over (length s) s (target + 1)) in
    if ltb target (length s) then rest else target

-- a loop `while (pos < len && test(s[pos])) pos++`
unfoldable pub scan_bytes : ℕ → (ℕ → Bool) → Bytes → ℕ → ℕ
scan_bytes zero test s pos = pos
scan_bytes (suc fuel) test s pos =
    let rest = scan_bytes fuel test s (pos + 1) in
    if ltb pos (length s) && test (at s pos) then rest else pos

-- a loop `while (utf8_peek_next(…) && test(cp)) pos += bytes`
unfoldable pub scan_codepoints : ℕ → (ℕ → Bool) → Bytes → ℕ → ℕ
scan_codepoints zero test s pos = pos
scan_codepoints (suc fuel) test s pos = elim (utf8_peek_next s pos) [
  | none ↦ pos
  | some (cp, bytes) ↦ elim (test cp) [
    | true ↦ scan_codepoints fuel test s (pos + bytes)
    | false ↦ pos
  ]
]

-- `memchr(s + pos, c, len - pos)` as a position, the end where the byte does not occur
unfoldable pub find_byte : ℕ → ℕ → Bytes → ℕ → ℕ
find_byte zero c s pos = length s
find_byte (suc fuel) c s pos =
    let rest = find_byte fuel c s (pos + 1) in
    if leb (length s) pos then length s else if at s pos == c then pos else rest

-- OP_BAL: the loop from `pos` at the given depth; the position behind the delimiter that closes
-- depth one. The depth is a signed number in the source; it is at least 1 after the first round,
-- which reads the opening delimiter.
unfoldable pub balance : ℕ → ℕ → ℕ → Bytes → ℕ → ℕ → Option ℕ
balance zero open_cp close_cp s pos depth = none
balance (suc fuel) open_cp close_cp s pos depth = elim (utf8_peek_next s pos) [
  | none ↦ none
  | some (cp, bytes) ↦
      let deeper = balance fuel open_cp close_cp s (pos + bytes) (depth + 1) in
      let shallower = balance fuel open_cp close_cp s (pos + bytes) (depth - 1) in
      let same = balance fuel open_cp close_cp s (pos + bytes) depth in
      if cp == open_cp
      then deeper
      else if cp == close_cp
      then if depth == 1 then some (pos + bytes) else shallower
      else same
]
