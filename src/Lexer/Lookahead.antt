-- ===== src/Lexer/Lookahead.antt =====
-- Looking ahead in the token stream: `snobol_lexer_peek`, `snobol_lexer_save` and
-- `snobol_lexer_restore` of core/src/lexer.c.
use libsnobol.Base.{
  ℕ, zero, suc, ◌+◌, ◌≡◌, refl, ap, subst, sym, ◌∙◌, Bool, true, false, not, ◌&&◌, ◌||◌, Option,
  none, some, ltb, leb, ◌==◌, if◌then◌else◌, length, arith, Bool-cases, ◌⊎◌, inl, inr,
}
use libsnobol.Lexer.{
  TokenType, eof, error, charclass, lit, lbracket, Token, mark, token_type, Lexer, lexer_has_error,
  is_digit_char, is_ident, is_ident_start, is_blank, skip_one, skip_whitespace, advance,
  scan_closed, scan_ident, scan_digits, fail_with, finish_integer, scan_integer,
  bracket_is_table_key, single, lex_word, lex_char, remember, lex_fresh, lexer_next, lexer_peek,
  lexer_save, lexer_restore,
}
use libsnobol.Vm.Bytes.{at}
use libsnobol.Vm.Cursor.{scan_bytes}

-- The source stays, and an error is set only with the error token.
record Calm (lx : Lexer) (r : Token × Lexer) : Type 0 where
  same_source : r.1.source ≡ lx.source
  quiet : (r.0 ≡ mark error) ⊎ (r.1.failure ≡ lx.failure)

Calm-if :
    (b : Bool) (lx : Lexer) (x y : Token × Lexer)
    → Calm lx x
    → Calm lx y
    → Calm lx (if b then x else y)
Calm-if true lx x y p q = p
Calm-if false lx x y p q = q

Calm-after :
    (lx lx' : Lexer) (r : Token × Lexer)
    → lx'.source ≡ lx.source
    → lx'.failure ≡ lx.failure
    → Calm lx' r
    → Calm lx r
Calm-after lx lx' r s f c = record {
  same_source = c.same_source ∙ s;
  quiet = elim c.quiet [ inl e ↦ inl e | inr q ↦ inr (q ∙ f) ];
}

skip_whitespace_calm :
    (fuel : ℕ) (lx : Lexer)
    → ((skip_whitespace fuel lx).source ≡ lx.source)
      × ((skip_whitespace fuel lx).failure ≡ lx.failure)
unfolding skip_whitespace skip_one
skip_whitespace_calm zero lx = (refl, refl)
skip_whitespace_calm (suc fuel) lx =
    elim (Bool-cases (ltb lx.pos (length lx.source) && is_blank (at lx.source lx.pos))) [
      | inl more ↦ rw more (skip_whitespace_calm fuel (skip_one lx))
      | inr last ↦ rw last (refl, refl)
    ]

closed-Calm : (type : TokenType) (closing : ℕ) (lx : Lexer) → Calm lx (scan_closed type closing lx)
unfolding scan_closed advance
closed-Calm type closing lx =
    elim (Bool-cases (
      ltb (scan_bytes (length lx.source) (λ c. not (c == closing)) lx.source lx.pos)
        (length lx.source))) [
          | inl closed ↦ record { same_source = rw closed refl; quiet = inr (rw closed refl) }
          | inr open_end ↦ record { same_source = rw open_end refl; quiet = inr (rw open_end refl) }
        ]

finished-Calm :
    (negative : Bool) (lx : Lexer) (d : ℕ × Bool × ℕ) → Calm lx (finish_integer negative lx d)
unfolding finish_integer advance fail_with
finished-Calm negative lx (value, true, stop) = record { same_source = refl; quiet = inl refl }
finished-Calm negative lx (value, false, stop) = record { same_source = refl; quiet = inr refl }

integer-Calm : (negative : Bool) (lx : Lexer) → Calm lx (scan_integer negative lx)
unfolding scan_integer
integer-Calm negative lx =
    finished-Calm negative lx (scan_digits (length lx.source) lx.source lx.pos 0 false)

word-Calm : (c : ℕ) (lx : Lexer) → Calm lx (lex_word c lx)
unfolding lex_word scan_ident advance fail_with
word-Calm c lx =
    Calm-if (is_ident_start c) lx _ _ (record { same_source = refl; quiet = inr refl })
      (Calm-if (is_digit_char c) lx _ _ (integer-Calm false lx) (
        Calm-if
          ((c == b'-')
            && ltb (lx.pos + 1) (length lx.source)
            && is_digit_char (at lx.source (lx.pos + 1)))
          lx (scan_integer true (advance 1 lx)) _
          (Calm-after lx (advance 1 lx) _ refl refl (integer-Calm true (advance 1 lx)))
          (record { same_source = refl; quiet = inl refl })))

one-Calm : (token : Token) (lx : Lexer) → Calm lx (token, advance 1 lx)
unfolding advance
one-Calm token lx = record { same_source = refl; quiet = inr refl }

closed_after :
    (type : TokenType) (closing : ℕ) (lx : Lexer)
    → Calm lx (scan_closed type closing (advance 1 lx))
unfolding advance
closed_after type closing lx =
    Calm-after lx (record lx { pos = lx.pos + 1; column = lx.column + 1 }) _ refl refl
      (closed-Calm type closing _)

char-Calm : (c : ℕ) (o : Option TokenType) (lx : Lexer) → Calm lx (lex_char c o lx)
unfolding lex_char
char-Calm c (some type) lx = one-Calm (mark type) lx
char-Calm c none lx =
    Calm-if (c == b'[') lx _ _
      (Calm-if (is_ident lx.prev_type && bracket_is_table_key lx) lx (mark lbracket, advance 1 lx)
        (scan_closed charclass b']' (advance 1 lx)) (one-Calm (mark lbracket) lx)
        (closed_after charclass b']' lx))
      (Calm-if (c == 39) lx (scan_closed lit 39 (advance 1 lx)) _ (closed_after lit 39 lx)
        (word-Calm c lx))

remember-Calm : (lx : Lexer) (r : Token × Lexer) → Calm lx r → Calm lx (remember r)
unfolding remember
remember-Calm lx r c = record { same_source = c.same_source; quiet = c.quiet }

fresh-Calm : (lx : Lexer) → Calm lx (lex_fresh lx)
unfolding lex_fresh
fresh-Calm lx =
    let l = skip_whitespace (length lx.source) lx in
    let (s, f) = skip_whitespace_calm (length lx.source) lx in
    let c = at l.source l.pos in
    let r = lex_char c (single c) l in
    Calm-if (leb (length l.source) l.pos || (c == 0)) lx (mark eof, l) (remember r)
      (record { same_source = s; quiet = inr f })
      (Calm-after lx l (remember r) s f (remember-Calm l r (char-Calm c (single c) l)))

next-fresh :
    (lx : Lexer) → lx.has_peek ≡ false → lexer_has_error lx ≡ false → lexer_next lx ≡ lex_fresh lx
unfolding lexer_next
next-fresh lx p e =
    ap
      (λ b.
        if b
        then (mark error, lx)
        else if lx.has_peek
        then (lx.peek_token, record lx { has_peek = false; prev_type = token_type lx.peek_token })
        else lex_fresh lx)
      e
    ∙ ap
        (λ b.
          if b
          then (lx.peek_token, record lx { has_peek = false; prev_type = token_type lx.peek_token })
          else lex_fresh lx)
        p

-- the state behind a peek
abbrev held : Token → Lexer → Lexer
held token lx = record lx { peek_token = token; has_peek = true }

peek-fresh :
    (lx : Lexer)
    → lx.has_peek ≡ false
    → lexer_peek lx ≡ ((lexer_next lx).0, held (lexer_next lx).0 (lexer_next lx).1)
unfolding lexer_peek
peek-fresh lx p =
    ap
      (λ b.
        if b
        then (lx.peek_token, lx)
        else ((lexer_next lx).0, held (lexer_next lx).0 (lexer_next lx).1))
      p

next-held :
    (token : Token) (lx : Lexer)
    → (token ≡ mark error) ⊎ (lexer_has_error lx ≡ false)
    → ((lexer_next (held token lx)).0 ≡ token) × ((lexer_next (held token lx)).1.pos ≡ lx.pos)
unfolding lexer_next lexer_has_error
next-held token lx q = elim (Bool-cases (lexer_has_error lx)) [
  | inl failed ↦ elim q [ inl e ↦ (rw failed (sym e), rw failed refl) | inr no_error ↦ absurd (cc) ]
  | inr fine ↦ (rw fine refl, rw fine refl)
]

no_error_same :
    (lx lx' : Lexer) → lx'.failure ≡ lx.failure → lexer_has_error lx' ≡ lexer_has_error lx
unfolding lexer_has_error
no_error_same lx lx' e = rw e refl

restored :
    (lx lx' : Lexer)
    → lx'.source ≡ lx.source
    → lx'.failure ≡ lx.failure
    → lexer_restore lx' (lexer_save lx) ≡ lx
unfolding lexer_restore lexer_save
restored lx lx' s f = ground (arith, s, f)

next-Calm :
    (lx : Lexer) → lx.has_peek ≡ false → lexer_has_error lx ≡ false → Calm lx (lexer_next lx)
next-Calm lx p e = subst (Calm lx) (sym (next-fresh lx p e)) (fresh-Calm lx)

-- From a lexer with no peeked token and no error, a peek returns the token of the next call, the call
-- after the peek returns that token again and leaves the cursor behind it, and, unless that token is
-- an error, restoring the state saved before a call undoes the call.
pub lexer_next-lexer_peek :
    (lx : Lexer)
    → lx.has_peek ≡ false
    → lexer_has_error lx ≡ false
    → ((lexer_peek lx).0 ≡ (lexer_next lx).0)
      × ((lexer_next (lexer_peek lx).1).0 ≡ (lexer_next lx).0)
      × ((lexer_next (lexer_peek lx).1).1.pos ≡ (lexer_next lx).1.pos)
      × (((lexer_next lx).0 ≡ mark error) ⊎ (lexer_restore (lexer_next lx).1 (lexer_save lx) ≡ lx))
lexer_next-lexer_peek lx p e =
    let calm = next-Calm lx p e in
    let r = lexer_next lx in
    let peek = peek-fresh lx p in
    let quiet : (r.0 ≡ mark error) ⊎ (lexer_has_error r.1 ≡ false) = elim calm.quiet [
      | inl q ↦ inl q
      | inr q ↦ inr (no_error_same lx r.1 q ∙ e)
    ] in
    let (token_same, pos_same) = next-held r.0 r.1 quiet in
    (
      ap (λ (q : Token × Lexer). q.0) peek,
      ap (λ (q : Token × Lexer). (lexer_next q.1).0) peek ∙ token_same,
      ap (λ (q : Token × Lexer). (lexer_next q.1).1.pos) peek ∙ pos_same,
      elim calm.quiet [ inl q ↦ inl q | inr q ↦ inr (restored lx r.1 calm.same_source q) ],
    )
