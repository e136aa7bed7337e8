-- ===== src/Vm/Arena/Stack.antt =====
-- The arena of core/src/vm_choice.c refines a stack: what each operation does to the records in
-- order, the pages forgotten.
use libsnobol.Base.{
  ℕ, ◌+◌, ◌-◌, ◌≤◌, ◌<◌, ◌≡◌, refl, ap, ◌∙◌, ◌≢◌, List, [], ◌∷◌, ◌++◌, arith, some, ltb, true,
  false, Bool-cases, inl, inr, ◌==◌, if◌then◌else◌,
}
use libsnobol.Vm.Arena.{
  Page, Arena, arena_create, arena_reset, arena_alloc, arena_pop_last, last_record, record_at,
  trailing_word, make_room, write_record, footprint_of,
}

footprint-wide : (n : ℕ) → 16 ≤ footprint_of n
footprint-wide n = omega arith

pub itself : (n : ℕ) → (n == n) ≡ true
itself n = ground arith

module _ {ℓ} {A : Type ℓ} where
  abbrev pub payloads : List (ℕ × A) → List A
  payloads [] = []
  payloads ((_, x) ∷ rs) = x ∷ payloads rs

  abbrev pub total : List (ℕ × A) → ℕ
  total [] = 0
  total ((footprint, _) ∷ rs) = footprint + total rs

  abbrev pub pages_items : List (Page A) → List A
  pages_items [] = []
  pages_items (p ∷ ps) = payloads p.records ++ pages_items ps

  abbrev pub pages_used : List (Page A) → ℕ
  pages_used [] = 0
  pages_used (p ∷ ps) = p.used + pages_used ps

  -- the records that are live, the last one first
  abbrev pub items : Arena A → List A
  items a = payloads a.cur.records ++ pages_items a.earlier

  abbrev pub WideRecords : List (ℕ × A) → Type 0
  WideRecords [] = Unit {0}
  WideRecords ((footprint, _) ∷ rs) = (16 ≤ footprint) × WideRecords rs

  abbrev pub PageIsValid : Page A → Type 0
  PageIsValid p = WideRecords p.records × (total p.records ≡ p.used) × (p.used ≤ p.cap)

  -- every page but the first of the chain is in use
  abbrev pub ChainIsValid : Page A → List (Page A) → Type 0
  ChainIsValid p [] = PageIsValid p
  ChainIsValid p (q ∷ qs) = PageIsValid p × (0 < p.used) × ChainIsValid q qs

  pub record IsValid (a : Arena A) : Type 0 where
    pub chain : ChainIsValid a.cur a.earlier
    pub sum : a.total_used ≡ a.cur.used + pages_used a.earlier

  pub arena_create-IsValid : IsValid (arena_create {A = A})
  unfolding arena_create
  arena_create-IsValid = record { chain = (tt, refl, omega arith); sum = refl }

  pub items-arena_reset : (a : Arena A) → items (arena_reset a) ≡ []
  unfolding arena_reset
  items-arena_reset a = refl

  pub arena_reset-IsValid : (a : Arena A) → IsValid (arena_reset a)
  unfolding arena_reset
  arena_reset-IsValid a = record { chain = (tt, refl, omega arith); sum = refl }

  head_valid : (p : Page A) (ps : List (Page A)) → ChainIsValid p ps → PageIsValid p
  head_valid p [] c = c
  head_valid p (q ∷ qs) c = c.0

  ChainIsValid-of :
      (p p' : Page A) (ps : List (Page A))
      → ChainIsValid p ps
      → PageIsValid p'
      → 0 < p'.used
      → ChainIsValid p' ps
  ChainIsValid-of p p' [] c v pos = v
  ChainIsValid-of p p' (q ∷ qs) c v pos = (v, pos, c.2)

  chain_grows :
      (p p' : Page A) (ps : List (Page A))
      → ChainIsValid p ps
      → PageIsValid p'
      → 0 < p'.used
      → ChainIsValid p' (p ∷ ps)
  chain_grows p p' ps c v pos = (v, pos, c)

  items-make_room : (f : ℕ) (a : Arena A) → items (make_room f a) ≡ items a
  unfolding make_room
  items-make_room f a = ground arith

  -- An allocation, on the current page or a new one, puts the record in front of the live ones.
  pub items-arena_alloc : (n : ℕ) (x : A) (a : Arena A) → items (arena_alloc n x a) ≡ x ∷ items a
  unfolding arena_alloc
  items-arena_alloc n x a = ap (◌∷◌ x) (items-make_room (footprint_of n) a)

  last_record-newest :
      (width used f : ℕ) (x : A) (rs : List (ℕ × A))
      → last_record (record { cap = width; used = used; records = (f, x) ∷ rs }) ≡ some x
  unfolding last_record record_at trailing_word
  last_record-newest width used f x rs =
      ap (λ b. if b then some x else record_at rs (used - f) (used - f)) (itself (used - f))

  write_record-IsValid :
      (f : ℕ) (x : A) (a : Arena A)
      → 16 ≤ f
      → IsValid a
      → IsValid (write_record f x (make_room f a))
  unfolding write_record make_room
  write_record-IsValid f x a wide v = elim (Bool-cases (ltb a.cur.cap (a.cur.used + f))) [
    | inl full ↦ rw full (record {
      chain = (((wide, tt), omega arith, ground arith), omega arith, v.chain);
      sum = omega arith;
    })
    | inr fits ↦
        let c = head_valid a.cur a.earlier v.chain in
        rw fits (record {
          chain =
              ChainIsValid-of a.cur _ a.earlier v.chain ((wide, c.0), omega arith, ground arith)
                (omega arith);
          sum = omega arith;
        })
  ]

  last_record-write_record :
      (f : ℕ) (x : A) (a : Arena A) → last_record (write_record f x a).cur ≡ some x
  unfolding write_record
  last_record-write_record f x a = last_record-newest a.cur.cap (a.cur.used + f) f x a.cur.records

  pub arena_alloc-IsValid : (n : ℕ) (x : A) (a : Arena A) → IsValid a → IsValid (arena_alloc n x a)
  unfolding arena_alloc
  arena_alloc-IsValid n x a v = write_record-IsValid (footprint_of n) x a (footprint-wide n) v

  total-make_room : (f : ℕ) (a : Arena A) → (make_room f a).total_used ≡ a.total_used
  unfolding make_room
  total-make_room f a = ground arith

  -- An allocation in a valid arena, on the current page or on a new one, puts the record in front of
  -- the live ones, where the next pop reads it, and counts its bytes; every page stays within its
  -- capacity, with its records end to end, so that the arena is valid again.
  pub arena_alloc_lem :
      (n : ℕ) (x : A) (a : Arena A)
      → IsValid a
      → (items (arena_alloc n x a) ≡ x ∷ items a)
        × (last_record (arena_alloc n x a).cur ≡ some x)
        × ((arena_alloc n x a).total_used ≡ a.total_used + footprint_of n)
        × IsValid (arena_alloc n x a)
  unfolding arena_alloc write_record
  arena_alloc_lem n x a v = (
    items-arena_alloc n x a,
    last_record-write_record (footprint_of n) x (make_room (footprint_of n) a),
    ap (λ t. t + footprint_of n) (total-make_room (footprint_of n) a),
    arena_alloc-IsValid n x a v,
  )

  payloads-nil : (rs : List (ℕ × A)) → WideRecords rs → total rs ≡ 0 → payloads rs ≡ []
  payloads-nil [] w e = refl
  payloads-nil ((f, x) ∷ rs) w e = absurd (omega arith)

  -- the same page chain with `rs` as the records of the current page
  abbrev with_cur : ℕ → ℕ → List (ℕ × A) → List (Page A) → ℕ → ℕ → ℕ → Arena A
  with_cur width used rs ps t peak l = record {
    cur = record { cap = width; used = used; records = rs };
    earlier = ps;
    total_used = t;
    peak_used = peak;
    last_rec_size = l;
  }

  pop_records :
      (width used : ℕ) (rs : List (ℕ × A)) (ps : List (Page A)) (t peak l : ℕ) {y : A} {ys : List A}
      → (let a = with_cur width used rs ps t peak l in
          IsValid a
          → items a ≡ y ∷ ys
          → (a.total_used ≢ 0)
            × (last_record a.cur ≡ some y)
            × (items (arena_pop_last a) ≡ ys)
            × IsValid (arena_pop_last a))
  unfolding arena_pop_last
  pop_records width used [] [] t peak l v e = cc
  pop_records width used [] (p ∷ ps) t peak l v e = absurd (omega (arith, v.chain.0.1, v.chain.1))
  pop_records width used ((f, x) ∷ rs) [] t peak l v e =
      let c = v.chain in
      let live : (t == 0) ≡ false = ground arith in
      rw live (
        omega arith,
        last_record-newest width used f x rs ∙ ap some (cc),
        cc,
        record { chain = (c.0.1, omega arith, omega arith); sum = omega arith },
      )
  pop_records width used ((f, x) ∷ rs) (p ∷ ps) t peak l v e =
      let c = v.chain in
      let live : (t == 0) ≡ false = ground (arith, c.1) in
      elim (Bool-cases (used - f == 0)) [
        | inl emptied ↦
            rw (live, emptied)
              (
                omega arith,
                last_record-newest width used f x rs ∙ ap some (cc),
                cc (payloads-nil rs c.0.0.1 (ground arith)),
                record { chain = c.2; sum = ground arith },
              )
        | inr kept ↦
            rw (live, kept)
              (
                omega arith,
                last_record-newest width used f x rs ∙ ap some (cc),
                cc,
                record {
                  chain = ((c.0.0.1, omega arith, omega arith), ground arith, c.2);
                  sum = omega arith;
                },
              )
      ]

  -- On a valid arena whose records are `y ∷ ys`: the test for emptiness fails, the record read at the
  -- end of the current page is `y`, and the pop leaves exactly `ys` in a valid arena.
  pub arena_pop_last_lem :
      (a : Arena A) {y : A} {ys : List A}
      → IsValid a
      → items a ≡ y ∷ ys
      → (a.total_used ≢ 0)
        × (last_record a.cur ≡ some y)
        × (items (arena_pop_last a) ≡ ys)
        × IsValid (arena_pop_last a)
  arena_pop_last_lem a =
      pop_records a.cur.cap a.cur.used a.cur.records a.earlier a.total_used a.peak_used
        a.last_rec_size

  chain_items :
      (width used : ℕ) (rs : List (ℕ × A)) (ps : List (Page A))
      → ChainIsValid (record { cap = width; used = used; records = rs }) ps
      → used + pages_used ps ≡ 0
      → payloads rs ++ pages_items ps ≡ []
  chain_items width used rs [] v e = rw (payloads-nil rs v.0 (omega (arith, v.1)))
  chain_items width used rs (p ∷ ps) v e = absurd (omega (arith, v.1))

  -- A valid arena that counts no bytes holds no record.
  pub items-nil : (a : Arena A) → IsValid a → a.total_used ≡ 0 → items a ≡ []
  items-nil a v e =
      chain_items a.cur.cap a.cur.used a.cur.records a.earlier v.chain (omega (arith, v.sum))

  used-nil :
      (width used : ℕ) (rs : List (ℕ × A)) (ps : List (Page A))
      → ChainIsValid (record { cap = width; used = used; records = rs }) ps
      → payloads rs ++ pages_items ps ≡ []
      → used + pages_used ps ≡ 0
  used-nil width used [] [] v e = omega (arith, v.1)
  used-nil width used [] (p ∷ ps) v e = absurd (omega (arith, v.0.1, v.1))
  used-nil width used (r ∷ rs) ps v e = cc

  -- A valid arena with no record counts no bytes.
  pub total_used-zero : (a : Arena A) → IsValid a → items a ≡ [] → a.total_used ≡ 0
  total_used-zero a v e = v.sum ∙ used-nil a.cur.cap a.cur.used a.cur.records a.earlier v.chain e
