-- ===== src/Parser/Reports.antt =====
-- How the parsing functions of core/src/parser.c end: with an error exactly where they give a null
-- pointer.
pub mod Tokens
pub mod Targets
pub mod Calls
pub mod Tables
pub mod Primary
pub mod Grammar
pub mod Depth
use libsnobol.Base.{
  ℕ, ◌<◌, ◌≤◌, ◌≡◌, ◌^◌, ◌+◌, ◌%◌, arith, refl, Bool, true, false, List, [], ◌∷◌, Option, none,
  some, if◌then◌else◌, inl, inr, suc,
}
use libsnobol.Lexer.{TokenType, integer, Lexer, LexerError, LexerState, lexer_save}
use libsnobol.Lexer.Weight.{
  HasFailed, Tracks, IsSaved, next-Tracks, peek-Tracks, restore-Tracks, widen-Tracks,
}
use libsnobol.Parser.{
  Parser, ParserError, Parse, Ending, gives, stops, endless, continue, ◌>>=◌, return, refuse,
  Message, Read, is, is_int32, type_number, skip_token, peek, save_lexer, restore_lexer, next_is,
  surface, or_lexical, expect, integer_value, parse_integer_arg,
}
use libsnobol.Vm.Bytes.{Bytes}
use libsnobol.Vm.State.{max_vars}
use native.Mathlib.Nat.{mod-lt}

abbrev pub InRange : List (Bytes × ℕ) → Type 0
InRange [] = Unit {0}
InRange ((name, reg) ∷ names) = (reg < max_vars) × InRange names

-- No error is set, and every capture name stands for a register below `MAX_VARS`.
pub record IsCalm (p : Parser) : Type 0 where
  pub no_failure : p.failure ≡ none
  pub in_range : InRange p.capture_names

-- A value comes without an error, and behind it the lexer is tracked; a null pointer comes with an
-- error; only after a lexical error the fuel does not last.
unfoldable pub Settles : {A : Type 0} → Bool → Bytes → (A → ℕ) → (A → Type 0) → Ending A → Type 0
Settles b s j P (gives a p) = P a × IsCalm p × Tracks b s (j a) p.lexer
Settles b s j P (stops p) = (e : ParserError) × (p.failure ≡ some e)
Settles b s j P (endless p) = HasFailed p.lexer

-- so with fewer than `k` tokens left before and fewer than `j a` behind the value `a`
pub record Reports {A : Type 0} (b : Bool) (s : Bytes) (k : ℕ) (j : A → ℕ) (m : Parse A)
    (P : A → Type 0) : Type 0 where
  pub ends : (p : Parser) → IsCalm p → Tracks b s k p.lexer → Settles b s j P (m p)

abbrev pub Steady : {A : Type 0} → Bool → Bytes → ℕ → Parse A → (A → Type 0) → Type 0
Steady b s k m P = Reports b s k (λ _. k) m P

abbrev pub Anything : {A : Type 0} → A → Type 0
Anything a = Unit {0}

pub settles-continue :
    {A B : Type 0} {P : A → Type 0} {Q : B → Type 0} {b : Bool} {s : Bytes} {j : A → ℕ} {l : B → ℕ}
    (x : Ending A) {f : A → Parse B}
    → Settles b s j P x
    → ((a : A) → P a → Reports b s (j a) l (f a) Q)
    → Settles b s l Q (continue x f)
unfolding Settles continue
settles-continue (gives a p) (h, calm, t) g = (g a h).ends p calm t
settles-continue (stops p) h g = h
settles-continue (endless p) h g = h

pub bind :
    {A B : Type 0} {P : A → Type 0} {Q : B → Type 0} {b : Bool} {s : Bytes} {k : ℕ} {j : A → ℕ}
    {l : B → ℕ} {m : Parse A} {f : A → Parse B}
    → Reports b s k j m P
    → ((a : A) → P a → Reports b s (j a) l (f a) Q)
    → Reports b s k l (m >>= f) Q
unfolding ◌>>=◌
bind {m = m} h g = record { ends = λ p calm t. settles-continue (m p) (h.ends p calm t) g }

pub return-Reports :
    {A : Type 0} {P : A → Type 0} {b : Bool} {s : Bytes} {k : ℕ} (a : A)
    → P a
    → Steady b s k (return a) P
unfolding return Settles
return-Reports a h = record { ends = λ p calm t. (h, calm, t) }

pub refuse-Reports :
    {A : Type 0} {P : A → Type 0} {b : Bool} {s : Bytes} {k : ℕ} {j : A → ℕ} (message : Message)
    → Reports b s k j (refuse {A = A} message) P
unfolding refuse Settles
refuse-Reports message = record { ends = λ p calm t. (_, refl) }

pub either :
    {A : Type 0} {P : A → Type 0} {b : Bool} {s : Bytes} {k : ℕ} {j : A → ℕ} (c : Bool)
    {m n : Parse A}
    → (c ≡ true → Reports b s k j m P)
    → (c ≡ false → Reports b s k j n P)
    → Reports b s k j (if c then m else n) P
either true f g = f refl
either false f g = g refl

pub with_lexer : {p : Parser} {lexer : Lexer} → IsCalm p → IsCalm (record p { lexer = lexer })
with_lexer calm = record { no_failure = calm.no_failure; in_range = calm.in_range }

pub skip_token-Reports : {b : Bool} {s : Bytes} {k : ℕ} → Steady b s k skip_token Anything
unfolding skip_token Settles
skip_token-Reports {b} {s} {k} = record {
  ends = λ p calm t. (tt, with_lexer calm, next-Tracks b s k p.lexer t);
}

pub peek-Reports : {b : Bool} {s : Bytes} {k : ℕ} → Steady b s k peek Anything
unfolding peek Settles
peek-Reports {b} {s} {k} = record {
  ends = λ p calm t. (tt, with_lexer calm, peek-Tracks b s k p.lexer t);
}

pub restore_lexer-Reports :
    {b : Bool} {s : Bytes} {k j : ℕ} (state : LexerState)
    → IsSaved b s j state
    → Reports b s k (λ _. j) (restore_lexer state) Anything
unfolding restore_lexer Settles
restore_lexer-Reports {b} {s} {k} {j} state i = record {
  ends = λ p calm t. (tt, with_lexer calm, restore-Tracks b s k j p.lexer state i t);
}

-- a result that says how many tokens are left
pub giving :
    {A : Type 0} {P : A → Type 0} {b : Bool} {s : Bytes} {j : A → ℕ} (a : A)
    → P a
    → Reports b s (j a) j (return a) P
unfolding return Settles
giving a h = record { ends = λ p calm t. (h, calm, t) }

settles-widen :
    {A : Type 0} (P : A → Type 0) (b : Bool) (s : Bytes) (k : ℕ) (x : Ending A)
    → Settles b s (λ _. k) P x
    → Settles b s (λ _. suc k) P x
unfolding Settles
settles-widen P b s k (gives a p) (h, calm, t) = (h, calm, widen-Tracks b s k p.lexer t)
settles-widen P b s k (stops p) h = h
settles-widen P b s k (endless p) h = h

pub widen :
    {A : Type 0} {P : A → Type 0} {b : Bool} {s : Bytes} {k l : ℕ} {m : Parse A}
    → Reports b s k (λ _. l) m P
    → Reports b s k (λ _. suc l) m P
widen {P = P} {b} {s} {k} {l} {m} h = record {
  ends = λ p calm t. settles-widen P b s l (m p) (h.ends p calm t);
}

settles-failed :
    {A : Type 0} (P : A → Type 0) (s : Bytes) (j l : A → ℕ) (x : Ending A)
    → Settles true s j P x
    → Settles true s l P x
unfolding Settles
settles-failed P s j l (gives a p) h = h
settles-failed P s j l (stops p) h = h
settles-failed P s j l (endless p) h = h

-- After a lexical error the bounds say nothing.
pub failing :
    {A : Type 0} {P : A → Type 0} {s : Bytes} {k n : ℕ} {j l : A → ℕ} {m : Parse A}
    → Reports true s k j m P
    → Reports true s n l m P
failing {P = P} {s} {k} {n} {j} {l} {m} h = record {
  ends = λ p calm t. settles-failed P s j l (m p) (h.ends p calm t);
}

pub either_mode :
    {A : Type 0} (P : A → Type 0) (s : Bytes) (j : A → ℕ) (x : Ending A)
    → Settles true s j P x
    → Settles false s j P x
unfolding Settles
either_mode P s j (gives a p) (h, calm, t) = (h, calm, inl t)
either_mode P s j (stops p) h = h
either_mode P s j (endless p) h = h

-- What a saved state gives back depends on whether there was an error when it was saved.
pub saving :
    {B : Type 0} {Q : B → Type 0} {b : Bool} {s : Bytes} {k : ℕ} {j : B → ℕ}
    {f : LexerState → Parse B}
    → ((c : Bool) (state : LexerState) → IsSaved c s k state → Reports c s k j (f state) Q)
    → Reports b s k j (save_lexer >>= f) Q
unfolding ◌>>=◌ continue save_lexer lexer_save
saving {b = true} h = record { ends = λ p calm t. (h true _ tt).ends p calm t }
saving {b = false} h = record {
  ends = λ p calm t. elim t [
    | inl failed ↦ either_mode _ _ _ _ ((h true _ tt).ends p calm failed)
    | inr w ↦ (h false _ (w.inside, w.below)).ends p calm (inr w)
  ];
}

pub next_is-Reports :
    {b : Bool} {s : Bytes} {k : ℕ} (type : TokenType) → Steady b s k (next_is type) Anything
unfolding next_is
next_is-Reports type = bind peek-Reports (λ tok _. return-Reports _ tt)

surface-Reports :
    {A : Type 0} {P : A → Type 0} {b : Bool} {s : Bytes} {k : ℕ} {j : A → ℕ} (c : Bool)
    (e : Option LexerError) {m : Parse A}
    → Reports b s k j m P
    → Reports b s k j (surface c e m) P
unfolding surface
surface-Reports true (some e) h = refuse-Reports _
surface-Reports true none h = h
surface-Reports false e h = h

pub or_lexical-Reports :
    {A : Type 0} {P : A → Type 0} {b : Bool} {s : Bytes} {k : ℕ} {j : A → ℕ} (type : TokenType)
    {m : Parse A}
    → Reports b s k j m P
    → Reports b s k j (or_lexical type m) P
unfolding or_lexical
or_lexical-Reports type h = record { ends = λ p calm t. (surface-Reports _ _ h).ends p calm t }

pub expect-Reports :
    {b : Bool} {s : Bytes} {k : ℕ} → (type : TokenType) → Steady b s k (expect type) Anything
unfolding expect
expect-Reports type = bind peek-Reports (λ tok _.
    either (is tok.type type) (λ _. skip_token-Reports)
      (λ _. or_lexical-Reports _ (refuse-Reports _)))

abbrev pub IsWord : ℕ → Type 0
IsWord n = n < 2 ^ 32

integer_value-Reports :
    {b : Bool} {s : Bytes} {k : ℕ}
    → (function : Bytes) (v : ℕ) → Steady b s k (integer_value function v) IsWord
unfolding integer_value
integer_value-Reports function v =
    either (is_int32 v)
      (λ _. bind skip_token-Reports (λ a _. return-Reports _ (mod-lt v (omega arith))))
      (λ _. refuse-Reports _)

pub parse_integer_arg-Reports :
    {b : Bool} {s : Bytes} {k : ℕ}
    → (function : Bytes) → Steady b s k (parse_integer_arg function) IsWord
unfolding parse_integer_arg
parse_integer_arg-Reports function = bind peek-Reports (λ tok _.
    or_lexical-Reports _
      (either (is tok.type integer) (λ _. integer_value-Reports _ _) (λ _. refuse-Reports _)))

-- `bind` behind a step whose value does not matter
pub after :
    {A B : Type 0} {Q : B → Type 0} {b : Bool} {s : Bytes} {k : ℕ} {j : A → ℕ} {l : B → ℕ}
    {m : Parse A} {f : A → Parse B}
    → Reports b s k j m Anything
    → ((a : A) → Reports b s (j a) l (f a) Q)
    → Reports b s k l (m >>= f) Q
after h g = bind h (λ a _. g a)

-- a step behind the end of its input
pub skipping :
    {B : Type 0} {Q : B → Type 0} {b : Bool} {s : Bytes} {k : ℕ} {l : B → ℕ}
    {f : Unit {0} → Parse B}
    → ((a : Unit {0}) → Reports b s k l (f a) Q)
    → Reports b s k l (skip_token >>= f) Q
skipping h = bind skip_token-Reports (λ a _. h a)
