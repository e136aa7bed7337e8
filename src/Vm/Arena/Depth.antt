-- ===== src/Vm/Arena/Depth.antt =====
-- `vm_choice_stack_depth` of core/src/vm_choice.c: the walk over the pages counts the records.
use libsnobol.Base.{
  ℕ, zero, suc, ◌*◌, ◌<◌, ◌≤◌, true, false, Option, some, ◌>>=◌, ◌==◌, leb, sym, ◌+◌, ◌≡◌, refl, ap,
  ◌∙◌, List, [], ◌∷◌, ◌++◌, arith, length, length-append, reverse,
}
use mathlib.Core.List.{reverse-cons, append_assoc}
use libsnobol.Vm.Arena.{Page, Arena, footprint_at, walk_page, walk_pages, arena_depth}
use libsnobol.Vm.Arena.Stack.{
  payloads, total, pages_items, items, WideRecords, PageIsValid, ChainIsValid, IsValid,
}

counted :
    (o r : Option ℕ) {d n : ℕ}
    → o ≡ some d
    → r ≡ some n
    → (o >>= λ depth. r >>= λ rest. some (depth + rest)) ≡ some (d + n)
counted o r e f = rw (e, f) refl

module _ {ℓ} {A : Type ℓ} where
  total-append : (rs qs : List (ℕ × A)) → total (rs ++ qs) ≡ total rs + total qs
  total-append [] qs = omega arith
  total-append ((f, x) ∷ rs) qs = omega (arith, total-append rs qs)

  WideRecords-append :
      (rs qs : List (ℕ × A)) → WideRecords rs → WideRecords qs → WideRecords (rs ++ qs)
  WideRecords-append [] qs v w = w
  WideRecords-append (r ∷ rs) qs v w = (v.0, WideRecords-append rs qs v.1 w)

  reversed :
      (rs : List (ℕ × A))
      → WideRecords rs
      → WideRecords (reverse rs)
        × (total (reverse rs) ≡ total rs)
        × (length (reverse rs) ≡ length rs)
  reversed [] w = (tt, refl, refl)
  reversed (r ∷ rs) w =
      let (wide, sum, len) = reversed rs w.1 in
      simp reverse-cons (
        WideRecords-append (reverse rs) (r ∷ []) wide (w.0, tt),
        omega (arith, total-append (reverse rs) (r ∷ []), sum),
        omega (arith, length-append (reverse rs) (r ∷ []), len),
      )

  -- the leading word is read where the record begins
  footprint_at-here :
      (pre rs : List (ℕ × A)) (f : ℕ) (x : A) (start : ℕ)
      → WideRecords pre
      → footprint_at (pre ++ (f, x) ∷ rs) start (start + total pre) ≡ some f
  unfolding footprint_at
  footprint_at-here [] rs f x start w = ground arith
  footprint_at-here ((g, y) ∷ pre) rs f x start w =
      let further : (start == start + (g + total pre)) ≡ false = ground (arith, w.0) in
      let there : start + g + total pre ≡ start + (g + total pre) = omega arith in
      rw further (
        ap (footprint_at (pre ++ (f, x) ∷ rs) (start + g)) (sym there)
        ∙ footprint_at-here pre rs f x (start + g) w.1)

  -- From behind the records `pre`, the walk counts the others.
  walk_page-length :
      (fuel : ℕ) (pre rs : List (ℕ × A)) (pos used : ℕ)
      → WideRecords pre
      → WideRecords rs
      → pos ≡ total pre
      → pos + total rs ≡ used
      → length rs < fuel
      → walk_page fuel (pre ++ rs) pos used ≡ some (length rs)
  unfolding walk_page
  walk_page-length zero pre rs pos used v w e u h = absurd (omega (arith, h))
  walk_page-length (suc fuel) pre [] pos used v w e u h =
      let end : leb (pos + 2 * 4) used ≡ false = ground (arith, u) in rw end refl
  walk_page-length (suc fuel) pre ((f, x) ∷ rs) pos used v w e u h =
      let more : leb (pos + 2 * 4) used ≡ true = ground (arith, u, w.0) in
      let word : footprint_at (pre ++ (f, x) ∷ rs) 0 pos ≡ some f =
        ap (footprint_at (pre ++ (f, x) ∷ rs) 0) {y = 0 + total pre} (omega (arith, e))
        ∙ footprint_at-here pre rs f x 0 v in
      let rest : walk_page fuel (pre ++ (f, x) ∷ rs) (pos + f) used ≡ some (length rs) =
        ap (λ l. walk_page fuel l (pos + f) used) (sym (append_assoc pre ((f, x) ∷ []) rs))
        ∙ walk_page-length fuel (pre ++ (f, x) ∷ []) rs (pos + f) used
            (WideRecords-append pre ((f, x) ∷ []) v (w.0, tt)) w.1
            (omega (arith, e, total-append pre ((f, x) ∷ []))) (omega (arith, u))
            (omega (arith, h)) in
      rw (more, word, rest) refl

  length-le_total : (rs : List (ℕ × A)) → WideRecords rs → length rs ≤ total rs
  length-le_total [] w = omega arith
  length-le_total ((f, x) ∷ rs) w = omega (arith, w.0, length-le_total rs w.1)

  length-payloads : (rs : List (ℕ × A)) → length (payloads rs) ≡ length rs
  length-payloads [] = refl
  length-payloads (r ∷ rs) = ap suc (length-payloads rs)

  page_depth :
      (p : Page A)
      → PageIsValid p
      → walk_page (suc p.used) (reverse p.records) 0 p.used ≡ some (length (payloads p.records))
  page_depth p v =
      let (wide, sum, len) = reversed p.records v.0 in
      let short = length-le_total (reverse p.records) wide in
      walk_page-length (suc p.used) [] (reverse p.records) 0 p.used tt wide refl
        (omega (arith, sum, v.1)) (omega (arith, short, sum, v.1))
      ∙ ap some (len ∙ sym (length-payloads p.records))

  chain_depth :
      (p : Page A) (ps : List (Page A))
      → ChainIsValid p ps
      → walk_pages (p ∷ ps) ≡ some (length (pages_items (p ∷ ps)))
  unfolding walk_pages
  chain_depth p [] v =
      counted _ (some 0) (page_depth p v) refl
      ∙ ap some (sym (length-append (payloads p.records) []))
  chain_depth p (q ∷ qs) v =
      counted _ (walk_pages (q ∷ qs)) (page_depth p v.0) (chain_depth q qs v.2)
      ∙ ap some (sym (length-append (payloads p.records) (pages_items (q ∷ qs))))

  -- On a valid arena the walk over the pages ends, reads only the leading words of records, and counts
  -- the live records.
  pub arena_depth_lem : (a : Arena A) → IsValid a → arena_depth a ≡ some (length (items a))
  unfolding arena_depth
  arena_depth_lem a v = chain_depth a.cur a.earlier v.chain
