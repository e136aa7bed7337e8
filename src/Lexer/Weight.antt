-- ===== src/Lexer/Weight.antt =====
-- How many tokens the lexer of core/src/lexer.c may still give, counted from its cursor and the token
-- that it has peeked at.
use libsnobol.Base.{
  ℕ, suc, ◌+◌, ◌-◌, ◌≤◌, ◌<◌, ◌≡◌, refl, ap, sym, subst, ◌∙◌, Bool, true, false, Option, none, some,
  if◌then◌else◌, length, arith, Bool-cases, Option-cases, ◌⊎◌, inl, inr,
}
use libsnobol.Lexer.{
  TokenType, eof, error, Token, mark, token_type, LexerError, Lexer, LexerState, lexer_has_error,
  lexer_next, lexer_peek, lex_fresh, peeked, lexer_restore,
}
use libsnobol.Lexer.Progress.{IsLast, next-Moves}
use libsnobol.Vm.Bytes.{Bytes}

abbrev pub is_last : TokenType → Bool
is_last eof = true
is_last error = true
is_last _ = false

-- 1 for a peeked token that is not the last
abbrev pub held : Bool → Token → ℕ
held has_peek token = if has_peek then if is_last (token_type token) then 0 else 1 else 0

abbrev pub HasFailed : Lexer → Type 0
HasFailed lx = (e : LexerError) × (lx.failure ≡ some e)

-- No error, a cursor within the source, and fewer than `k` tokens left to give.
pub record IsWithin (s : Bytes) (k : ℕ) (lx : Lexer) : Type 0 where
  pub live : lx.failure ≡ none
  pub same_source : lx.source ≡ s
  pub inside : lx.pos ≤ length s
  pub below : length s - lx.pos + held lx.has_peek lx.peek_token < k

-- After an error only the error is followed, and before one also the tokens left.
abbrev pub Tracks : Bool → Bytes → ℕ → Lexer → Type 0
Tracks true s k lx = HasFailed lx
Tracks false s k lx = HasFailed lx ⊎ IsWithin s k lx

pub failed-Tracks : (b : Bool) (s : Bytes) (k : ℕ) (lx : Lexer) → HasFailed lx → Tracks b s k lx
failed-Tracks true s k lx h = h
failed-Tracks false s k lx h = inl h

next-failed : (lx : Lexer) → HasFailed lx → lexer_next lx ≡ (mark error, lx)
unfolding lexer_next lexer_has_error
next-failed lx (e, h) =
    ap
      (λ (o : Option LexerError).
        if elim o [ none ↦ false | some _ ↦ true ]
        then (mark error, lx)
        else if lx.has_peek
        then (lx.peek_token, record lx { has_peek = false; prev_type = token_type lx.peek_token })
        else lex_fresh lx)
      h

next-held :
    (lx : Lexer)
    → lx.failure ≡ none
    → lx.has_peek ≡ true
    → lexer_next lx
      ≡ (lx.peek_token, record lx { has_peek = false; prev_type = token_type lx.peek_token })
unfolding lexer_next lexer_has_error
next-held lx h p =
    ap
      (λ (o : Option LexerError).
        if elim o [ none ↦ false | some _ ↦ true ]
        then (mark error, lx)
        else if lx.has_peek
        then (lx.peek_token, record lx { has_peek = false; prev_type = token_type lx.peek_token })
        else lex_fresh lx)
      h
    ∙ ap
        (λ b.
          if b
          then (lx.peek_token, record lx { has_peek = false; prev_type = token_type lx.peek_token })
          else lex_fresh lx)
        p

pub peek-held : (lx : Lexer) → lx.has_peek ≡ true → lexer_peek lx ≡ (lx.peek_token, lx)
unfolding lexer_peek
peek-held lx p = ap (λ b. if b then (lx.peek_token, lx) else peeked (lexer_next lx)) p

pub peek-new : (lx : Lexer) → lx.has_peek ≡ false → lexer_peek lx ≡ peeked (lexer_next lx)
unfolding lexer_peek
peek-new lx p = ap (λ b. if b then (lx.peek_token, lx) else peeked (lexer_next lx)) p

held-none : {b : Bool} (t : Token) → b ≡ false → held b t ≡ 0
held-none {b} t h = ap (λ x. held x t) h

last-is_last : (t : Token) → IsLast t → is_last (token_type t) ≡ true
last-is_last t (inl h) = ap is_last h
last-is_last t (inr h) = ap is_last h

held-last : (t : Token) → IsLast t → held true t ≡ 0
held-last t h = ap (λ b. if b then 0 else 1) (last-is_last t h)

held-le : (b : Bool) → (if b then 0 else 1) ≤ 1
held-le true = omega arith
held-le false = omega arith

-- With no token peeked at: where the next token leaves the lexer, and what it may hold.
fresh-below :
    (s : Bytes) (k : ℕ) (lx : Lexer)
    → IsWithin s k lx
    → lx.has_peek ≡ false
    → HasFailed (lexer_next lx).1
      ⊎ (((lexer_next lx).1.failure ≡ none)
          × ((lexer_next lx).1.source ≡ s)
          × ((lexer_next lx).1.has_peek ≡ false)
          × ((lexer_next lx).1.pos ≤ length s)
          × (length s - (lexer_next lx).1.pos + held true (lexer_next lx).0 < k)
          × (length s - (lexer_next lx).1.pos < k))
fresh-below s k lx w p =
    let len = ap length w.same_source in
    let (a, e) = next-Moves lx p (omega (arith, len, w.inside)) in
    let q = held-none (lx.peek_token) p in
    let on = a.on in
    let fit : length s - (lexer_next lx).1.pos < k = omega (arith, w.below, q, on) in
    elim (Option-cases (lexer_next lx).1.failure) [
      | inr failed ↦ inl failed
      | inl live ↦ inr (
        live,
        a.same_source ∙ w.same_source,
        a.peek_kept ∙ p,
        omega (arith, a.inside, len),
        elim e [
          | inl last ↦ omega (arith, fit, held-last (lexer_next lx).0 last)
          | inr lt ↦ omega (
            arith,
            held-le (is_last (token_type (lexer_next lx).0)),
            w.below,
            q,
            lt,
            a.inside,
            len,
          )
        ],
        fit,
      )
    ]

pub next-IsWithin :
    (s : Bytes) (k : ℕ) (lx : Lexer) → IsWithin s k lx → Tracks false s k (lexer_next lx).1
next-IsWithin s k lx w = elim (Bool-cases lx.has_peek) [
  | inl p ↦
      subst (λ (r : Token × Lexer). Tracks false s k r.1) (sym (next-held lx w.live p))
        (inr (record {
          live = w.live;
          same_source = w.same_source;
          inside = w.inside;
          below = omega (arith, w.below);
        }))
  | inr p ↦ elim (fresh-below s k lx w p) [
    | inl failed ↦ inl failed
    | inr (live, src, unheld, inside, _, fit) ↦ inr (record {
      live = live;
      same_source = src;
      inside = inside;
      below = omega (arith, fit, held-none ((lexer_next lx).1.peek_token) unheld);
    })
  ]
]

-- A token that was peeked at and is not the last is consumed.
pub consumed :
    (s : Bytes) (k : ℕ) (lx : Lexer)
    → IsWithin s (suc k) lx
    → lx.has_peek ≡ true
    → is_last (token_type lx.peek_token) ≡ false
    → IsWithin s k (lexer_next lx).1
consumed s k lx w p n =
    let one : held lx.has_peek lx.peek_token ≡ 1 =
      ap (λ b. held b lx.peek_token) p ∙ ap (λ b. if b then 0 else 1) n in
    subst (λ (r : Token × Lexer). IsWithin s k r.1) (sym (next-held lx w.live p))
      (record {
        live = w.live;
        same_source = w.same_source;
        inside = w.inside;
        below = omega (arith, w.below, one);
      })

pub next-Tracks :
    (b : Bool) (s : Bytes) (k : ℕ) (lx : Lexer) → Tracks b s k lx → Tracks b s k (lexer_next lx).1
next-Tracks true s k lx h = subst (λ (r : Token × Lexer). HasFailed r.1) (sym (next-failed lx h)) h
next-Tracks false s k lx (inl h) =
    inl (subst (λ (r : Token × Lexer). HasFailed r.1) (sym (next-failed lx h)) h)
next-Tracks false s k lx (inr w) = next-IsWithin s k lx w

peek-failed : (lx : Lexer) → HasFailed lx → HasFailed (lexer_peek lx).1
peek-failed lx h = elim (Bool-cases lx.has_peek) [
  | inl p ↦ subst (λ (r : Token × Lexer). HasFailed r.1) (sym (peek-held lx p)) h
  | inr p ↦
      subst (λ (r : Token × Lexer). HasFailed r.1)
        (sym (peek-new lx p ∙ ap peeked (next-failed lx h))) h
]

peek-IsWithin :
    (s : Bytes) (k : ℕ) (lx : Lexer) → IsWithin s k lx → Tracks false s k (lexer_peek lx).1
peek-IsWithin s k lx w = elim (Bool-cases lx.has_peek) [
  | inl p ↦ subst (λ (r : Token × Lexer). Tracks false s k r.1) (sym (peek-held lx p)) (inr w)
  | inr p ↦
      subst (λ (r : Token × Lexer). Tracks false s k r.1) (sym (peek-new lx p))
        (elim (fresh-below s k lx w p) [
          | inl failed ↦ inl failed
          | inr (live, src, unheld, inside, fit, _) ↦
              inr (record { live = live; same_source = src; inside = inside; below = fit })
        ])
]

pub peek-Tracks :
    (b : Bool) (s : Bytes) (k : ℕ) (lx : Lexer) → Tracks b s k lx → Tracks b s k (lexer_peek lx).1
peek-Tracks true s k lx h = peek-failed lx h
peek-Tracks false s k lx (inl h) = inl (peek-failed lx h)
peek-Tracks false s k lx (inr w) = peek-IsWithin s k lx w

-- the token that was peeked at is kept
pub peek-kept :
    (lx : Lexer)
    → ((lexer_peek lx).1.has_peek ≡ true) × ((lexer_peek lx).1.peek_token ≡ (lexer_peek lx).0)
peek-kept lx = elim (Bool-cases lx.has_peek) [
  | inl p ↦
      subst (λ (r : Token × Lexer). (r.1.has_peek ≡ true) × (r.1.peek_token ≡ r.0))
        (sym (peek-held lx p)) (p, refl)
  | inr p ↦
      subst (λ (r : Token × Lexer). (r.1.has_peek ≡ true) × (r.1.peek_token ≡ r.0))
        (sym (peek-new lx p)) (refl, refl)
]

-- what a saved state gives back
abbrev pub IsSaved : Bool → Bytes → ℕ → LexerState → Type 0
IsSaved true s k state = Unit {0}
IsSaved false s k state =
    (state.pos ≤ length s) × (length s - state.pos + held state.has_peek state.peek_token < k)

pub restore-Tracks :
    (b : Bool) (s : Bytes) (k j : ℕ) (lx : Lexer) (state : LexerState)
    → IsSaved b s j state
    → Tracks b s k lx
    → Tracks b s j (lexer_restore lx state)
unfolding lexer_restore
restore-Tracks true s k j lx state i h = h
restore-Tracks false s k j lx state i (inl h) = inl h
restore-Tracks false s k j lx state i (inr w) =
    inr (record { live = w.live; same_source = w.same_source; inside = i.0; below = i.1 })

pub widen-Tracks :
    (b : Bool) (s : Bytes) (k : ℕ) (lx : Lexer) → Tracks b s k lx → Tracks b s (suc k) lx
widen-Tracks true s k lx h = h
widen-Tracks false s k lx (inl h) = inl h
widen-Tracks false s k lx (inr w) = inr (record {
  live = w.live;
  same_source = w.same_source;
  inside = w.inside;
  below = omega (arith, w.below);
})
