-- ===== src/Vm/Bytes.antt =====
-- Reading bytecode operands and subject code points: `read_u8`, `read_u16`, `read_u32` and
-- `utf8_peek_next` of core/include/snobol/vm.h. A byte is a number below 256; `c & 0xE0 == 0xC0`
-- is written as a test of `c / 32`, `x & 0x3F` as `x % 64`, and a shift as a product.
use libsnobol.Base.{
  ℕ, ◌+◌, ◌*◌, ◌/◌, ◌%◌, List, Option, none, some, ltb, leb, ◌==◌, if◌then◌else◌, length, get_or,
}

abbrev pub Bytes : Type 0
Bytes = List ℕ

-- a read, 0 out of range
abbrev pub at : Bytes → ℕ → ℕ
at s i = get_or s i 0

-- The operand and the instruction pointer behind it; on overrun 0 and the end of the code.
unfoldable pub read_u8 : Bytes → ℕ → ℕ × ℕ
read_u8 bc ip = if ltb (length bc) (ip + 1) then (0, length bc) else (at bc ip, ip + 1)

unfoldable pub read_u16 : Bytes → ℕ → ℕ × ℕ
read_u16 bc ip =
    if ltb (length bc) (ip + 2) then (0, length bc) else (at bc ip * 256 + at bc (ip + 1), ip + 2)

unfoldable pub read_u32 : Bytes → ℕ → ℕ × ℕ
read_u32 bc ip =
    if ltb (length bc) (ip + 4)
    then (0, length bc)
    else (((at bc ip * 256 + at bc (ip + 1)) * 256 + at bc (ip + 2)) * 256 + at bc (ip + 3), ip + 4)

-- The code point at `pos` and its number of bytes, `none` at the end and where the sequence is cut
-- off or no lead byte stands.
unfoldable pub utf8_peek_next : Bytes → ℕ → Option (ℕ × ℕ)
utf8_peek_next s pos =
    let len = length s in
    let c = at s pos in
    if leb len pos
    then none
    else if ltb c 0x80
    then some (c, 1)
    else if c / 32 == 6
    then if leb len (pos + 1) then none else some (c % 32 * 64 + at s (pos + 1) % 64, 2)
    else if c / 16 == 14
    then if leb len (pos + 2)
      then none
      else some (c % 16 * 4096 + at s (pos + 1) % 64 * 64 + at s (pos + 2) % 64, 3)
    else if c / 8 == 30
    then if leb len (pos + 3)
      then none
      else some (
        c % 8 * 262144
            + at s (pos + 1) % 64 * 4096
            + at s (pos + 2) % 64 * 64
            + at s (pos + 3) % 64,
        4,
      )
    else none
