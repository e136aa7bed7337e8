-- ===== src/Parser/Reports/Targets.antt =====
-- How the functions on capture names and registers of core/src/parser.c end.
use libsnobol.Lexer.Weight.{Tracks}
use libsnobol.Base.{
  ℕ, ◌+◌, ◌-◌, ◌*◌, ◌≤◌, ◌<◌, ◌≡◌, refl, Bool, true, false, ◌&&◌, List, [], ◌∷◌, Option, none, some,
  ltb, leb, ◌==◌, if◌then◌else◌, arith, Bool-cases, inl, inr,
}
use libsnobol.Lexer.{ident, anchor_end, at_sign, is_digit_char}
use libsnobol.Parser.{Parser, Read, is}
use libsnobol.Parser.Reports.{
  InRange, IsCalm, Settles, bind, after, skipping, either, return-Reports, refuse-Reports,
  peek-Reports, Steady,
}
use libsnobol.Parser.Targets.{
  register_digits, v_register, register_name, find_capture_reg, known_capture, take_register,
  next_register, name_target, register_target, v_target, parse_naming_target,
}
use libsnobol.Slots.{same}
use libsnobol.Vm.Bytes.{Bytes}
use libsnobol.Vm.State.{max_vars}

-- a register in range
abbrev pub IsRegister : ℕ → Type 0
IsRegister reg = reg < max_vars

-- what an optional number promises
abbrev pub IfSome : (ℕ → Type 0) → Option ℕ → Type 0
IfSome P none = Unit {0}
IfSome P (some n) = P n

if-IfSome :
    (P : ℕ → Type 0) (b : Bool) (x y : Option ℕ)
    → (b ≡ true → IfSome P x)
    → (b ≡ false → IfSome P y)
    → IfSome P (if b then x else y)
if-IfSome P true x y f g = f refl
if-IfSome P false x y f g = g refl

-- A name of the form of a register stands for one that is at most `MAX_VARS`.
register_digits-le :
    (cs : Bytes) (reg : ℕ) → reg ≤ max_vars → IfSome (λ r. r ≤ max_vars) (register_digits cs reg)
unfolding register_digits
register_digits-le [] reg h = h
register_digits-le (c ∷ cs) reg h =
    if-IfSome _ (is_digit_char c) _ _
      (λ _.
        if-IfSome _ (ltb max_vars (reg * 10 + (c - b'0'))) _ _ (λ _. tt)
          (λ small. register_digits-le cs (reg * 10 + (c - b'0')) (ground arith)))
      (λ _. tt)

pub v_register-le : (name : Bytes) → IfSome (λ r. r ≤ max_vars) (v_register name)
unfolding v_register
v_register-le [] = tt
v_register-le (v ∷ []) = tt
v_register-le (v ∷ c ∷ cs) =
    if-IfSome _ ((v == b'v') && is_digit_char c) _ _
      (λ _. register_digits-le (c ∷ cs) 0 (omega arith)) (λ _. tt)

register_name-InRange :
    (name : Bytes) (reg : ℕ) (names : List (Bytes × ℕ))
    → reg < max_vars
    → InRange names
    → InRange (register_name name reg names)
unfolding register_name
register_name-InRange name reg [] h all = (h, tt)
register_name-InRange name reg ((known, old) ∷ names) h all = elim (Bool-cases (same known name)) [
  | inl hit ↦ rw hit (h, all.1)
  | inr miss ↦ rw miss (all.0, register_name-InRange name reg names h all.1)
]

find_capture_reg-InRange :
    (name : Bytes) (names : List (Bytes × ℕ))
    → InRange names
    → IfSome IsRegister (find_capture_reg name names)
unfolding find_capture_reg
find_capture_reg-InRange name [] all = tt
find_capture_reg-InRange name ((known, reg) ∷ names) all =
    if-IfSome _ (same known name) _ _ (λ _. all.0) (λ _. find_capture_reg-InRange name names all.1)

pub known_capture-Reports :
    {b : Bool} {s : Bytes} {k : ℕ} (name : Bytes)
    → Steady b s k (known_capture name) (IfSome IsRegister)
unfolding known_capture Settles
known_capture-Reports name = record {
  ends = λ p calm t. (find_capture_reg-InRange name p.capture_names calm.in_range, calm, t);
}

take_register-Settles :
    (b : Bool) (s : Bytes) (k : ℕ) (name : Bytes) (p : Parser)
    → IsCalm p
    → Tracks b s k p.lexer
    → p.capture_reg_counter < max_vars
    → Settles b s (λ _. k) IsRegister (take_register name p)
unfolding take_register Settles
take_register-Settles b s k name p calm t h = (
  h,
  record {
    no_failure = calm.no_failure;
    in_range = register_name-InRange name p.capture_reg_counter p.capture_names h calm.in_range;
  },
  t,
)

pub next_register-Reports :
    {b : Bool} {s : Bytes} {k : ℕ} (name : Bytes) → Steady b s k (next_register name) IsRegister
unfolding next_register
next_register-Reports {b} {s} {k} name = record {
  ends = λ p calm t. elim (Bool-cases (leb max_vars p.capture_reg_counter)) [
    | inl full ↦ rw full ((refuse-Reports _).ends p calm t)
    | inr room ↦ rw room (take_register-Settles b s k name p calm t (ground arith))
  ];
}

name_target-Reports : {b : Bool} {s : Bytes} {k : ℕ} → Steady b s k name_target IsRegister
unfolding name_target
name_target-Reports = after peek-Reports (λ tok.
    either (is tok.type ident)
      (λ _. bind (next_register-Reports _) (λ reg h. skipping (λ _. return-Reports _ h)))
      (λ _. refuse-Reports _))

register_target-Reports :
    {b : Bool} {s : Bytes} {k : ℕ}
    → (o : Option ℕ) (form : Bool) → Steady b s k (register_target o form) IsRegister
unfolding register_target
register_target-Reports (some reg) form =
    either (leb max_vars reg) (λ _. refuse-Reports _)
      (λ small. skipping (λ _. return-Reports _ (ground arith)))
register_target-Reports none true = refuse-Reports _
register_target-Reports none false = refuse-Reports _

v_target-Reports :
    {b : Bool} {s : Bytes} {k : ℕ} → (tok : Read) → Steady b s k (v_target tok) IsRegister
unfolding v_target
v_target-Reports tok =
    either (is tok.type ident) (λ _. register_target-Reports _ _) (λ _. refuse-Reports _)

pub parse_naming_target-Reports :
    {b : Bool} {s : Bytes} {k : ℕ} → Steady b s k parse_naming_target IsRegister
unfolding parse_naming_target
parse_naming_target-Reports = after peek-Reports (λ tok.
    either (is tok.type at_sign) (λ _. skipping (λ _. name_target-Reports))
      (λ _.
        either (is tok.type anchor_end)
          (λ _. skipping (λ _. after peek-Reports (λ next. v_target-Reports next)))
          (λ _. v_target-Reports tok)))
