-- ===== src/Parser/Reports/Tokens.antt =====
-- What the parsing functions of core/src/parser.c know behind a token that they have peeked at: the
-- next `advance` consumes it, unless there is a lexical error.
use libsnobol.Base.{
  ℕ, suc, ◌<◌, ◌≡◌, refl, ap, sym, ◌∙◌, Bool, true, false, ◌==◌, if◌then◌else◌, arith, ◌⊎◌, inl,
  inr,
}
use libsnobol.Lexer.{
  TokenType, eof, lit, ident, integer, error, Token, text, number, mark, token_type, Lexer,
  lexer_peek, LexerState, lexer_save, lexer_next,
}
use libsnobol.Lexer.Weight.{
  HasFailed, IsWithin, is_last, consumed, next-Tracks, peek-Tracks, peek-kept, Tracks, IsSaved,
}
use libsnobol.Parser.{
  Parser, Parse, Read, read, ◌>>=◌, continue, return, skip_token, peek, next_is, is, type_number,
  save_lexer,
}
use libsnobol.Parser.Reports.{IsCalm, Settles, Reports, with_lexer, either_mode, settles-continue}
use libsnobol.Vm.Bytes.{Bytes}

-- A token of the type was peeked at, unless there was a lexical error.
abbrev pub IsReady : Bool → Bytes → ℕ → TokenType → Lexer → Type 0
IsReady true s k type lx = HasFailed lx
IsReady false s k type lx =
    HasFailed lx ⊎ (IsWithin s k lx × (lx.has_peek ≡ true) × (token_type lx.peek_token ≡ type))

-- `Reports` behind a peeked token of the type
pub record Follows {B : Type 0} (b : Bool) (s : Bytes) (k : ℕ) (type : TokenType) (l : B → ℕ)
    (m : Parse B) (Q : B → Type 0) : Type 0 where
  pub ends : (p : Parser) → IsCalm p → IsReady b s k type p.lexer → Settles b s l Q (m p)

read-type : (source : Bytes) (token : Token) → (read source token).type ≡ token_type token
unfolding read token_type
read-type source (mark type) = refl
read-type source (text type start len) = refl
read-type source (number value) = refl

ready :
    (s : Bytes) (k : ℕ) (lx : Lexer) (type : TokenType)
    → type ≡ token_type (lexer_peek lx).0
    → HasFailed (lexer_peek lx).1 ⊎ IsWithin s k (lexer_peek lx).1
    → IsReady false s k type (lexer_peek lx).1
ready s k lx type e (inl failed) = inl failed
ready s k lx type e (inr w) =
    let (on, kept) = peek-kept lx in inr (w, on, ap token_type kept ∙ sym e)

peek-IsReady :
    (b : Bool) (s : Bytes) (k : ℕ) (lx : Lexer) (type : TokenType)
    → type ≡ token_type (lexer_peek lx).0
    → Tracks b s k lx
    → IsReady b s k type (lexer_peek lx).1
peek-IsReady true s k lx type e t = peek-Tracks true s k lx t
peek-IsReady false s k lx type e t = ready s k lx type e (peek-Tracks false s k lx t)

pub peeking :
    {B : Type 0} {Q : B → Type 0} {b : Bool} {s : Bytes} {k : ℕ} {l : B → ℕ} {f : Read → Parse B}
    → ((tok : Read) → Follows b s k tok.type l (f tok) Q)
    → Reports b s k l (peek >>= f) Q
unfolding ◌>>=◌ continue peek
peeking {b = b} {s} {k} h = record {
  ends = λ p calm t.
      let source = (lexer_peek p.lexer).1.source in
      let token = (lexer_peek p.lexer).0 in
      (h (read source token)).ends _ (with_lexer calm)
        (peek-IsReady b s k p.lexer _ (read-type source token) t);
}

pub testing :
    {B : Type 0} {Q : B → Type 0} {b : Bool} {s : Bytes} {k : ℕ} {l : B → ℕ} (want : TokenType)
    (f : Bool → Parse B)
    → ((type : TokenType) → Follows b s k type l (f (is type want)) Q)
    → Reports b s k l (next_is want >>= f) Q
unfolding ◌>>=◌ continue peek next_is return
testing {b = b} {s} {k} want f h = record {
  ends = λ p calm t.
      let source = (lexer_peek p.lexer).1.source in
      let token = (lexer_peek p.lexer).0 in
      (h (read source token).type).ends _ (with_lexer calm)
        (peek-IsReady b s k p.lexer _ (read-type source token) t);
}

forget :
    (b : Bool) (s : Bytes) (k : ℕ) (type : TokenType) (lx : Lexer)
    → IsReady b s k type lx
    → Tracks b s k lx
forget true s k type lx h = h
forget false s k type lx (inl h) = inl h
forget false s k type lx (inr (w, on, e)) = inr w

-- where the token does not matter
pub anyway :
    {B : Type 0} {Q : B → Type 0} {b : Bool} {s : Bytes} {k : ℕ} {type : TokenType} {l : B → ℕ}
    {m : Parse B}
    → Reports b s k l m Q
    → Follows b s k type l m Q
anyway {b = b} {s} {k} {type} h = record {
  ends = λ p calm t. h.ends p calm (forget b s k type p.lexer t);
}

pub branch :
    {B : Type 0} {Q : B → Type 0} {b : Bool} {s : Bytes} {k : ℕ} {type : TokenType} {l : B → ℕ}
    (c : Bool) {m n : Parse B}
    → (c ≡ true → Follows b s k type l m Q)
    → (c ≡ false → Follows b s k type l n Q)
    → Follows b s k type l (if c then m else n) Q
branch true f g = f refl
branch false f g = g refl

pub bind_ready :
    {A B : Type 0} {P : A → Type 0} {Q : B → Type 0} {b : Bool} {s : Bytes} {k : ℕ}
    {type : TokenType} {j : A → ℕ} {l : B → ℕ} {m : Parse A} {f : A → Parse B}
    → Follows b s k type j m P
    → ((a : A) → P a → Reports b s (j a) l (f a) Q)
    → Follows b s k type l (m >>= f) Q
unfolding ◌>>=◌
bind_ready {m = m} h g = record { ends = λ p calm t. settles-continue (m p) (h.ends p calm t) g }

consume-Tracks :
    (b : Bool) (s : Bytes) (k : ℕ) (type : TokenType) (lx : Lexer)
    → is_last type ≡ false
    → IsReady b s (suc k) type lx
    → Tracks b s k (lexer_next lx).1
consume-Tracks true s k type lx n h = next-Tracks true s k lx h
consume-Tracks false s k type lx n (inl h) = next-Tracks false s k lx (inl h)
consume-Tracks false s k type lx n (inr (w, on, e)) = inr (consumed s k lx w on (ap is_last e ∙ n))

pub consuming :
    {B : Type 0} {Q : B → Type 0} {b : Bool} {s : Bytes} {k : ℕ} {type : TokenType} {l : B → ℕ}
    {f : Unit {0} → Parse B}
    → is_last type ≡ false
    → ((a : Unit {0}) → Reports b s k l (f a) Q)
    → Follows b s (suc k) type l (skip_token >>= f) Q
unfolding ◌>>=◌ continue skip_token
consuming {b = b} {s} {k} {type} n h = record {
  ends = λ p calm t. (h tt).ends _ (with_lexer calm) (consume-Tracks b s k type p.lexer n t);
}

-- `saving` behind a peeked token
pub saving_ready :
    {B : Type 0} {Q : B → Type 0} {b : Bool} {s : Bytes} {k : ℕ} {type : TokenType} {l : B → ℕ}
    {f : LexerState → Parse B}
    → ((c : Bool) (state : LexerState) → IsSaved c s k state → Follows c s k type l (f state) Q)
    → Follows b s k type l (save_lexer >>= f) Q
unfolding ◌>>=◌ continue save_lexer lexer_save
saving_ready {b = true} h = record { ends = λ p calm t. (h true _ tt).ends p calm t }
saving_ready {b = false} h = record {
  ends = λ p calm t. elim t [
    | inl failed ↦ either_mode _ _ _ _ ((h true _ tt).ends p calm failed)
    | inr (w, on, e) ↦ (h false _ (w.inside, w.below)).ends p calm (inr (w, on, e))
  ];
}

-- a token that is neither the end nor an error
pub not_last :
    (type : TokenType) (n : ℕ)
    → (type_number type == n) ≡ true
    → 0 < n
    → n < 20
    → is_last type ≡ false
unfolding type_number
not_last eof n h a b = absurd (ground arith)
not_last error n h a b = absurd (ground arith)
not_last lit n h a b = refl
not_last ident n h a b = refl
not_last integer n h a b = refl
not_last TokenType.charclass n h a b = refl
not_last TokenType.pipe n h a b = refl
not_last TokenType.lparen n h a b = refl
not_last TokenType.rparen n h a b = refl
not_last TokenType.star n h a b = refl
not_last TokenType.plus n h a b = refl
not_last TokenType.question n h a b = refl
not_last TokenType.anchor_start n h a b = refl
not_last TokenType.anchor_end n h a b = refl
not_last TokenType.at_sign n h a b = refl
not_last TokenType.colon n h a b = refl
not_last TokenType.lbracket n h a b = refl
not_last TokenType.rbracket n h a b = refl
not_last TokenType.dot n h a b = refl
not_last TokenType.equals n h a b = refl
not_last TokenType.comma n h a b = refl
