-- ===== src/Lexer/Progress.antt =====
-- How far a call of `snobol_lexer_next` of core/src/lexer.c gets.
use libsnobol.Base.{
  ℕ, zero, suc, ◌+◌, ◌-◌, ◌*◌, ◌/◌, ◌≤◌, ◌<◌, ◌≡◌, refl, ap, ◌∙◌, Bool, true, false, not, ◌&&◌,
  ◌||◌, Option, none, some, ltb, leb, ◌==◌, if◌then◌else◌, length, arith, Bool-cases, ◌⊎◌, inl, inr,
}
use libsnobol.Lexer.{
  is_ident, lbracket, TokenType, eof, error, charclass, lit, Token, mark, token_type, Lexer,
  lexer_create, lexer_has_error, is_digit_char, is_ident_start, is_ident_continue, is_blank,
  skip_one, skip_whitespace, advance, scan_closed, scan_ident, scan_digits, finish_integer,
  scan_integer, bracket_is_table_key, single, fail_with, lex_word, lex_char, remember, lex_fresh,
  lexer_next, int64_max,
}
use libsnobol.Vm.Bounds.Walks.{scan_bytes-le, le-scan_bytes}
use libsnobol.Vm.Bytes.{Bytes, at}
use libsnobol.Vm.Cursor.{scan_bytes}

-- the same source, and a cursor that has not gone back nor past the end
pub record Along (lx lx' : Lexer) : Type 0 where
  pub same_source : lx'.source ≡ lx.source
  pub peek_kept : lx'.has_peek ≡ lx.has_peek
  pub on : lx.pos ≤ lx'.pos
  pub inside : lx'.pos ≤ length lx.source

Along-refl : (lx : Lexer) → lx.pos ≤ length lx.source → Along lx lx
Along-refl lx h = record { same_source = refl; peek_kept = refl; on = omega arith; inside = h }

Along-trans : {a b c : Lexer} → Along a b → Along b c → Along a c
Along-trans f g = record {
  same_source = cc (f.same_source, g.same_source);
  peek_kept = cc (f.peek_kept, g.peek_kept);
  on = omega (arith, f.on, g.on);
  inside = omega (arith, g.inside, ap length f.same_source);
}

advance-Along : (n : ℕ) (lx : Lexer) → lx.pos + n ≤ length lx.source → Along lx (advance n lx)
unfolding advance
advance-Along n lx h = record { same_source = refl; peek_kept = refl; on = omega arith; inside = h }

blank_inside :
    (lx : Lexer)
    → (ltb lx.pos (length lx.source) && is_blank (at lx.source lx.pos)) ≡ true
    → lx.pos + 1 ≤ length lx.source
blank_inside lx h = ground arith

skip_whitespace-Along :
    (fuel : ℕ) (lx : Lexer) → lx.pos ≤ length lx.source → Along lx (skip_whitespace fuel lx)
unfolding skip_whitespace skip_one
skip_whitespace-Along zero lx h = Along-refl lx h
skip_whitespace-Along (suc fuel) lx h =
    elim (Bool-cases (ltb lx.pos (length lx.source) && is_blank (at lx.source lx.pos))) [
      | inl more ↦
          let room = blank_inside lx more in
          let one : Along lx (skip_one lx) = record {
            same_source = refl;
            peek_kept = refl;
            on = omega arith;
            inside = room;
          } in
          rw more (Along-trans one (skip_whitespace-Along fuel (skip_one lx) room))
      | inr last ↦ rw last (Along-refl lx h)
    ]

-- A token at which the parser stops reading.
abbrev pub IsLast : Token → Type 0
IsLast token = (token_type token ≡ eof) ⊎ (token_type token ≡ error)

-- The cursor has not gone back, and the token ends the stream, or the cursor has gone on.
abbrev pub Moves : Lexer → Token × Lexer → Type 0
Moves lx r = Along lx r.1 × (IsLast r.0 ⊎ (lx.pos < r.1.pos))

scan_closed-Along :
    (type : TokenType) (closing : ℕ) (lx : Lexer)
    → lx.pos ≤ length lx.source
    → Along lx (scan_closed type closing lx).1
unfolding scan_closed advance
scan_closed-Along type closing lx h =
    let test : ℕ → Bool = λ c. not (c == closing) in
    let stop = scan_bytes (length lx.source) test lx.source lx.pos in
    let a = le-scan_bytes (length lx.source) test lx.source lx.pos in
    let b = scan_bytes-le (length lx.source) test lx.source lx.pos h in
    elim (Bool-cases (ltb stop (length lx.source))) [
      | inl closed ↦
          rw closed (record {
            same_source = refl;
            peek_kept = refl;
            on = omega arith;
            inside = ground arith;
          })
      | inr open_end ↦
          rw open_end (record {
            same_source = refl;
            peek_kept = refl;
            on = omega arith;
            inside = omega arith;
          })
    ]

lt-scan_bytes :
    (fuel : ℕ) (test : ℕ → Bool) (s : Bytes) (p : ℕ)
    → 0 < fuel
    → p < length s
    → test (at s p) ≡ true
    → p < scan_bytes fuel test s p
unfolding scan_bytes
lt-scan_bytes zero test s p f h t = absurd (omega (arith, f))
lt-scan_bytes (suc fuel) test s p f h t =
    let inside : ltb p (length s) ≡ true = ground arith in
    let on = le-scan_bytes fuel test s (p + 1) in rw (inside, t) (omega (arith, on))

ident-Moves :
    (lx : Lexer)
    → lx.pos < length lx.source
    → is_ident_start (at lx.source lx.pos) ≡ true
    → Along lx (scan_ident lx).1 × (lx.pos < (scan_ident lx).1.pos)
unfolding scan_ident advance
ident-Moves lx h t =
    let s = lx.source in
    let hi = scan_bytes-le (length s) is_ident_continue s lx.pos (omega (arith, h)) in
    let first : is_ident_continue (at s lx.pos) ≡ true = rw t refl in
    let lo = lt-scan_bytes (length s) is_ident_continue s lx.pos (omega (arith, h)) h first in
    (
      record {
        same_source = refl;
        peek_kept = refl;
        on = omega (arith, lo);
        inside = omega (arith, hi, lo);
      },
      omega (arith, lo),
    )

scan_digits_bounds :
    (fuel : ℕ) (s : Bytes) (p value : ℕ) (overflow : Bool)
    → p ≤ length s
    → (p ≤ (scan_digits fuel s p value overflow).2)
      × ((scan_digits fuel s p value overflow).2 ≤ length s)
unfolding scan_digits
scan_digits_bounds zero s p value overflow h = (omega arith, h)
scan_digits_bounds (suc fuel) s p value overflow h =
    elim (Bool-cases (ltb p (length s) && is_digit_char (at s p))) [
      | inl more ↦
          let room : p + 1 ≤ length s = ground arith in
          let (a, b) =
            scan_digits_bounds fuel s (p + 1) (value * 10 + (at s p - b'0'))
              (overflow || ltb ((int64_max - (at s p - b'0')) / 10) value) room in
          rw more (omega (arith, a), b)
      | inr last ↦ rw last (omega arith, h)
    ]

scan_digits_first :
    (fuel : ℕ) (s : Bytes) (p value : ℕ) (overflow : Bool)
    → 0 < fuel
    → p < length s
    → is_digit_char (at s p) ≡ true
    → p < (scan_digits fuel s p value overflow).2
unfolding scan_digits
scan_digits_first zero s p value overflow f h t = absurd (omega (arith, f))
scan_digits_first (suc fuel) s p value overflow f h t =
    let inside : ltb p (length s) ≡ true = ground arith in
    let (a, _) =
      scan_digits_bounds fuel s (p + 1) (value * 10 + (at s p - b'0'))
        (overflow || ltb ((int64_max - (at s p - b'0')) / 10) value) (omega (arith, h)) in
    rw (inside, t) (omega (arith, a))

finish-Moves :
    (negative : Bool) (lx : Lexer) (value stop : ℕ) (overflow : Bool)
    → lx.pos < stop
    → stop ≤ length lx.source
    → Moves lx (finish_integer negative lx (value, overflow, stop))
unfolding finish_integer advance token_type fail_with
finish-Moves negative lx value stop true a b = (
  record { same_source = refl; peek_kept = refl; on = omega arith; inside = omega arith },
  inl (inr refl),
)
finish-Moves negative lx value stop false a b = (
  record { same_source = refl; peek_kept = refl; on = omega arith; inside = omega arith },
  inr (omega arith),
)

integer-Moves :
    (negative : Bool) (lx : Lexer)
    → lx.pos < length lx.source
    → is_digit_char (at lx.source lx.pos) ≡ true
    → Moves lx (scan_integer negative lx)
unfolding scan_integer
integer-Moves negative lx h t =
    let s = lx.source in
    let (_, hi) = scan_digits_bounds (length s) s lx.pos 0 false (omega (arith, h)) in
    let lo = scan_digits_first (length s) s lx.pos 0 false (omega (arith, h)) h t in
    finish-Moves negative lx _ _ _ lo hi

Moves-if :
    (b : Bool) (lx : Lexer) (x y : Token × Lexer)
    → (b ≡ true → Moves lx x)
    → (b ≡ false → Moves lx y)
    → Moves lx (if b then x else y)
Moves-if true lx x y p q = p refl
Moves-if false lx x y p q = q refl

-- a scan that starts one byte further
Moves-after : (lx lx' : Lexer) (r : Token × Lexer) → Along lx lx' → Moves lx' r → Moves lx r
Moves-after lx lx' (token, l) a (b, inl stop) = (Along-trans a b, inl stop)
Moves-after lx lx' (token, l) a (b, inr lt) = (Along-trans a b, inr (omega (arith, a.on, lt)))

Moves-closed :
    (type : TokenType) (closing : ℕ) (lx : Lexer)
    → lx.pos < length lx.source
    → Moves lx (scan_closed type closing (advance 1 lx))
unfolding advance
Moves-closed type closing lx h =
    let one = advance-Along 1 lx (omega (arith, h)) in
    let rest = scan_closed-Along type closing (advance 1 lx) (omega (arith, h)) in
    (Along-trans one rest, inr (omega (arith, rest.on)))

Moves-one :
    (token : Token) (lx : Lexer) → lx.pos < length lx.source → Moves lx (token, advance 1 lx)
unfolding advance
Moves-one token lx h = (advance-Along 1 lx (omega (arith, h)), inr (omega arith))

signed_integer :
    (lx : Lexer)
    → lx.pos + 1 < length lx.source
    → is_digit_char (at lx.source (lx.pos + 1)) ≡ true
    → Moves (advance 1 lx) (scan_integer true (advance 1 lx))
unfolding advance
signed_integer lx room digit =
    integer-Moves true (record lx { pos = lx.pos + 1; column = lx.column + 1 }) room digit

word-Moves : (lx : Lexer) → lx.pos < length lx.source → Moves lx (lex_word (at lx.source lx.pos) lx)
unfolding lex_word token_type fail_with
word-Moves lx h =
    let c = at lx.source lx.pos in
    Moves-if (is_ident_start c) lx _ _ (λ t. let (a, lt) = ident-Moves lx h t in (a, inr lt))
      (λ _.
        Moves-if (is_digit_char c) lx _ _ (λ t. integer-Moves false lx h t)
          (λ _.
            Moves-if
              ((c == b'-')
                && ltb (lx.pos + 1) (length lx.source)
                && is_digit_char (at lx.source (lx.pos + 1)))
              lx _ _
              (λ t.
                let (room, digit) = signed lx t in
                Moves-after lx (advance 1 lx) (scan_integer true (advance 1 lx))
                  (advance-Along 1 lx (omega (arith, h))) (signed_integer lx room digit))
              (λ _. (
                record {
                  same_source = refl;
                  peek_kept = refl;
                  on = omega arith;
                  inside = omega (arith, h);
                },
                inl (inr refl),
              ))))
  where
    signed :
        (lx : Lexer)
        → ((at lx.source lx.pos == b'-')
            && ltb (lx.pos + 1) (length lx.source)
            && is_digit_char (at lx.source (lx.pos + 1)))
          ≡ true
        → (lx.pos + 1 < length lx.source) × (is_digit_char (at lx.source (lx.pos + 1)) ≡ true)
    signed lx t = ground arith

char-Moves :
    (o : Option TokenType) (lx : Lexer)
    → lx.pos < length lx.source
    → Moves lx (lex_char (at lx.source lx.pos) o lx)
unfolding lex_char
char-Moves (some type) lx h = Moves-one (mark type) lx h
char-Moves none lx h =
    let c = at lx.source lx.pos in
    Moves-if (c == b'[') lx _ _
      (λ _.
        Moves-if (is_ident lx.prev_type && bracket_is_table_key lx) lx (mark lbracket, advance 1 lx)
          _ (λ _. Moves-one (mark lbracket) lx h) (λ _. Moves-closed charclass b']' lx h))
      (λ _. Moves-if (c == 39) lx _ _ (λ _. Moves-closed lit 39 lx h) (λ _. word-Moves lx h))

remember-Moves : (lx : Lexer) (r : Token × Lexer) → Moves lx r → Moves lx (remember r)
unfolding remember token_type
remember-Moves lx (token, lx') (a, e) = (
  record { same_source = a.same_source; peek_kept = a.peek_kept; on = a.on; inside = a.inside },
  e,
)

fresh-Moves : (lx : Lexer) → lx.pos ≤ length lx.source → Moves lx (lex_fresh lx)
unfolding lex_fresh token_type
fresh-Moves lx h =
    let skipped = skip_whitespace (length lx.source) lx in
    let a = skip_whitespace-Along (length lx.source) lx h in
    Moves-if (leb (length skipped.source) skipped.pos || (at skipped.source skipped.pos == 0)) lx _
      _ (λ _. (a, inl (inl refl)))
      (λ t.
        let room : skipped.pos < length skipped.source = ground arith in
        let c = at skipped.source skipped.pos in
        let r = lex_char c (single c) skipped in
        Moves-after lx skipped (remember r) a
          (remember-Moves skipped r (char-Moves (single c) skipped room)))

-- A call with no token peeked at, from a cursor within the source, keeps it there and does not move
-- it back, and returns the end, an error, or a token behind which it stands further on.
pub next-Moves :
    (lx : Lexer) → lx.has_peek ≡ false → lx.pos ≤ length lx.source → Moves lx (lexer_next lx)
unfolding lexer_next token_type
next-Moves lx p h =
    Moves-if (lexer_has_error lx) lx _ _ (λ _. (Along-refl lx h, inl (inr refl)))
      (λ _. Moves-if lx.has_peek lx _ _ (λ t. absurd (cc)) (λ _. fresh-Moves lx h))

-- the lexer after `n` calls of `snobol_lexer_next`
abbrev pub after_calls : ℕ → Lexer → Lexer
after_calls zero lx = lx
after_calls (suc n) lx = after_calls n (lexer_next lx).1

reads_all :
    (budget : ℕ) (lx : Lexer)
    → lx.has_peek ≡ false
    → lx.pos ≤ length lx.source
    → length lx.source - lx.pos ≤ budget
    → (n : ℕ) × (n ≤ budget) × IsLast (lexer_next (after_calls n lx)).0
reads_all zero lx p h b =
    let (a, e) = next-Moves lx p h in
    elim e [
      | inl last ↦ (zero, omega arith, last)
      | inr lt ↦ absurd (omega (arith, b, lt, a.inside))
    ]
reads_all (suc budget) lx p h b =
    let (a, e) = next-Moves lx p h in
    elim e [
      | inl last ↦ (zero, omega arith, last)
      | inr lt ↦
          let lx' = (lexer_next lx).1 in
          let len = ap length a.same_source in
          let (n, le, last) =
            reads_all budget lx' (a.peek_kept ∙ p) (omega (arith, a.inside, len))
              (omega (arith, b, lt, len)) in
          (suc n, omega (arith, le), last)
    ]

-- Reading the tokens of any source with calls of `snobol_lexer_next` comes to the end or to an error
-- after at most as many tokens as the source has bytes.
pub lexer_next-IsLast :
    (source : Bytes)
    → (n : ℕ) × (n ≤ length source) × IsLast (lexer_next (after_calls n (lexer_create source))).0
unfolding lexer_create
lexer_next-IsLast source =
    reads_all (length source) (lexer_create source) refl (omega arith) (omega arith)
