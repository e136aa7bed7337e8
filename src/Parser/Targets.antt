-- ===== src/Parser/Targets.antt =====
-- Capture names, registers and naming targets: `ident_is_v_register`, `register_capture_name`,
-- `find_capture_reg` and `parse_naming_target` of core/src/parser.c.
use libsnobol.Base.{
  ℕ, ◌+◌, ◌-◌, ◌*◌, Bool, true, false, ◌&&◌, List, [], ◌∷◌, Option, none, some, ltb, leb, ◌==◌,
  if◌then◌else◌,
}
use libsnobol.Lexer.{ident, anchor_end, at_sign, is_digit_char}
use libsnobol.Parser.{Parse, Read, gives, ◌>>=◌, return, refuse, skip_token, peek, is, Message}
use libsnobol.Slots.{same}
use libsnobol.Vm.Bytes.{Bytes}
use libsnobol.Vm.State.{max_vars}

-- the loop over the digits, which leaves when the register is over `MAX_VARS`
unfoldable pub register_digits : Bytes → ℕ → Option ℕ
register_digits [] reg = some reg
register_digits (c ∷ cs) reg =
    let reg' = reg * 10 + (c - b'0') in
    let rest = register_digits cs reg' in
    if is_digit_char c then if ltb max_vars reg' then none else rest else none

-- `ident_is_v_register`
unfoldable pub v_register : Bytes → Option ℕ
v_register (v ∷ c ∷ cs) =
    if (v == b'v') && is_digit_char c then register_digits (c ∷ cs) 0 else none
v_register _ = none

-- whether a name has the form of a register, in range or not
unfoldable pub v_form : Bytes → Bool
v_form (v ∷ c ∷ cs) = (v == b'v') && is_digit_char c
v_form _ = false

-- `register_capture_name`
unfoldable pub register_name : Bytes → ℕ → List (Bytes × ℕ) → List (Bytes × ℕ)
register_name name reg [] = (name, reg) ∷ []
register_name name reg ((known, old) ∷ names) =
    let rest = register_name name reg names in
    if same known name then (known, reg) ∷ names else (known, old) ∷ rest

-- `find_capture_reg`, with `none` for -1
unfoldable pub find_capture_reg : Bytes → List (Bytes × ℕ) → Option ℕ
find_capture_reg name [] = none
find_capture_reg name ((known, reg) ∷ names) =
    let rest = find_capture_reg name names in if same known name then some reg else rest

unfoldable pub known_capture : Bytes → Parse (Option ℕ)
known_capture name p = gives (find_capture_reg name p.capture_names) p

-- `parser->capture_reg_counter++` and the registration of the name
unfoldable pub take_register : Bytes → Parse ℕ
take_register name p = gives p.capture_reg_counter (record p {
  capture_reg_counter = p.capture_reg_counter + 1;
  capture_names = register_name name p.capture_reg_counter p.capture_names;
})

-- the next register for a capture, when one is left
unfoldable pub next_register : Bytes → Parse ℕ
next_register name p =
    (if leb max_vars p.capture_reg_counter
        then refuse Message.too_many_captures
        else take_register name)
      p

-- the target `@name` behind the `@`
unfoldable pub name_target : Parse ℕ
name_target = do
  tok ← peek
  (if is tok.type ident
      then next_register tok.chars >>= (λ reg. skip_token >>= (λ _. return reg))
      else refuse Message.no_capture_name)

unfoldable pub register_target : Option ℕ → Bool → Parse ℕ
register_target (some reg) form =
    if leb max_vars reg then refuse (Message.naming_range reg) else skip_token >>= (λ _. return reg)
register_target none true = refuse Message.naming_name_range
register_target none false = refuse Message.no_naming_target

-- the target `vN`, behind an optional `$`
unfoldable pub v_target : Read → Parse ℕ
v_target tok =
    if is tok.type ident
    then register_target (v_register tok.chars) (v_form tok.chars)
    else refuse Message.no_naming_target

-- `parse_naming_target`
unfoldable pub parse_naming_target : Parse ℕ
parse_naming_target = do
  tok ← peek
  (if is tok.type at_sign
      then skip_token >>= (λ _. name_target)
      else if is tok.type anchor_end
      then skip_token >>= (λ _. peek >>= v_target)
      else v_target tok)
