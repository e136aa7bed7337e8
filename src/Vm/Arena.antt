-- ===== src/Vm/Arena.antt =====
-- The page-linked arena of the choice stack: `vm_arena_*` of core/src/vm_choice.c.
-- A page's bytes are kept as its records, the last one first, each with its size word.
pub mod Stack
pub mod Depth
use libsnobol.Base.{
  ℕ, zero, suc, ◌>>=◌, ◌+◌, ◌-◌, ◌*◌, ◌/◌, List, [], ◌∷◌, Option, none, some, ltb, leb, ◌==◌,
  if◌then◌else◌, reverse,
}

-- `ChoiceArenaPage`
pub record Page {ℓ} (A : Type ℓ) : Type ℓ where
  pub cap : ℕ
  pub used : ℕ
  pub records : List (ℕ × A)

-- `ChoiceArena`; `earlier` holds the pages before `cur`, the nearest first, so that the last page of
-- `cur ∷ earlier` is `head`.
pub record Arena {ℓ} (A : Type ℓ) : Type ℓ where
  pub cur : Page A
  pub earlier : List (Page A)
  pub total_used : ℕ
  pub peak_used : ℕ
  pub last_rec_size : ℕ

abbrev pub choice_arena_page_size : ℕ
choice_arena_page_size = 4096

-- `(n + 7) & ~7`
abbrev pub align8 : ℕ → ℕ
align8 n = (n + 7) / 8 * 8

-- the bytes that a record of `payload_len` bytes takes
abbrev pub footprint_of : ℕ → ℕ
footprint_of payload_len = align8 payload_len + 2 * 4 + 8

module _ {ℓ} {A : Type ℓ} where
  unfoldable pub new_page : ℕ → Page A
  new_page need = record {
    cap = if ltb choice_arena_page_size need then need else choice_arena_page_size;
    used = 0;
    records = [];
  }

  unfoldable pub arena_create : Arena A
  arena_create = record {
    cur = record { cap = choice_arena_page_size; used = 0; records = [] };
    earlier = [];
    total_used = 0;
    peak_used = 0;
    last_rec_size = 0;
  }

  -- `a->head`
  unfoldable pub head_page : Page A → List (Page A) → Page A
  head_page p [] = p
  head_page p (q ∷ ps) = head_page q ps

  unfoldable pub arena_reset : Arena A → Arena A
  arena_reset a = record {
    cur = record (head_page a.cur a.earlier) { used = 0; records = [] };
    earlier = [];
    total_used = 0;
    peak_used = 0;
    last_rec_size = 0;
  }

  -- the page that the record goes to: a fresh one is chained where the current one is full
  unfoldable pub make_room : ℕ → Arena A → Arena A
  unfolding new_page
  make_room footprint a =
      if ltb a.cur.cap (a.cur.used + footprint)
      then record a { cur = new_page footprint; earlier = a.cur ∷ a.earlier }
      else a

  write_record : ℕ → A → Arena A → Arena A
  write_record footprint x a =
      let total = a.total_used + footprint in
      record a {
        cur = record {
          cap = a.cur.cap;
          used = a.cur.used + footprint;
          records = (footprint, x) ∷ a.cur.records;
        };
        total_used = total;
        peak_used = if ltb a.peak_used total then total else a.peak_used;
        last_rec_size = footprint;
      }

  unfoldable pub arena_alloc : ℕ → A → Arena A → Arena A
  unfolding make_room write_record
  arena_alloc payload_len x a =
      let footprint = footprint_of payload_len in write_record footprint x (make_room footprint a)

  -- the footprint word at the end of the page, with what is read where the page is empty
  unfoldable pub trailing_word : List (ℕ × A) → ℕ
  trailing_word [] = 0
  trailing_word ((footprint, _) ∷ _) = footprint

  unfoldable pub drop_last : List (ℕ × A) → List (ℕ × A)
  drop_last [] = []
  drop_last (_ ∷ rs) = rs

  -- the payload of the record that begins at `offset`, the newest one ending at `used`; `none` where no
  -- record begins
  unfoldable pub record_at : List (ℕ × A) → ℕ → ℕ → Option A
  record_at [] used offset = none
  record_at ((footprint, x) ∷ rs) used offset =
      let rest = record_at rs (used - footprint) offset in
      if used - footprint == offset then some x else rest

  -- the record that `vm_pop_choice` reads at `data + used - footprint`
  unfoldable pub last_record : Page A → Option A
  unfolding record_at trailing_word
  last_record p = record_at p.records p.used (p.used - trailing_word p.records)

  -- an emptied page past the head is freed
  unfoldable pub free_page : Arena A → List (Page A) → Arena A
  free_page a [] = a
  free_page a (p ∷ ps) = if a.cur.used == 0 then record a { cur = p; earlier = ps } else a

  unfoldable pub arena_pop_last : Arena A → Arena A
  unfolding trailing_word drop_last free_page
  arena_pop_last a =
      if a.total_used == 0
      then a
      else let footprint = trailing_word a.cur.records in
        let shrunk = record a {
          cur = record {
            cap = a.cur.cap;
            used = a.cur.used - footprint;
            records = drop_last a.cur.records;
          };
          total_used = a.total_used - footprint;
        } in
        let freed = free_page shrunk a.earlier in
        record freed {
          last_rec_size = if freed.cur.used == 0 then 0 else trailing_word freed.cur.records;
        }

  -- the leading word at `offset`, of the records from the oldest on, which begins at `start`; `none`
  -- where no record begins
  unfoldable pub footprint_at : List (ℕ × A) → ℕ → ℕ → Option ℕ
  footprint_at [] start offset = none
  footprint_at ((footprint, _) ∷ rs) start offset =
      let rest = footprint_at rs (start + footprint) offset in
      if start == offset then some footprint else rest

  -- the `while` loop of `vm_choice_stack_depth` over one page, with fuel; `none` where it reads a word
  -- that is not the first of a record, or does not end
  unfoldable pub walk_page : ℕ → List (ℕ × A) → ℕ → ℕ → Option ℕ
  unfolding footprint_at
  walk_page zero rs pos used = none
  walk_page (suc fuel) rs pos used =
      let rest = footprint_at rs 0 pos >>= λ footprint.
      walk_page fuel rs (pos + footprint) used >>= λ depth. some (suc depth) in
      if leb (pos + 2 * 4) used then rest else some 0

  unfoldable pub walk_pages : List (Page A) → Option ℕ
  unfolding walk_page
  walk_pages [] = some 0
  walk_pages (p ∷ ps) = walk_page (suc p.used) (reverse p.records) 0 p.used >>= λ depth.
      walk_pages ps >>= λ rest. some (depth + rest)

  -- `vm_choice_stack_depth`
  unfoldable pub arena_depth : Arena A → Option ℕ
  unfolding walk_pages
  arena_depth a = walk_pages (a.cur ∷ a.earlier)
