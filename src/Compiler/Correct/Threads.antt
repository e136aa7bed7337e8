-- ===== src/Compiler/Correct/Threads.antt =====
-- An abstract machine for the code of plain patterns: a stack of threads, each an instruction pointer
-- and a cursor, of which the first runs. It forgets the arena, the trail and the registers of
-- core/src/vm_exec.c.
use libsnobol.Base.{
  ℕ, ◌+◌, ◌≡◌, refl, ap, sym, subst, ◌∙◌, ◌<◌, ◌^◌, if◌then◌else◌, List, [], ◌∷◌, ◌++◌, Option,
  none, some, leb, ◌==◌, length, drop,
}
use mathlib.Core.List.{append_assoc}
use libsnobol.Compiler.Correct.Layout.{Sits}
use libsnobol.Compiler.Correct.Meaning.{one_if, from_option, tab_ends}
use libsnobol.Compiler.Correct.Plain.{
  Instr, accept, fail_, rem_, lit, split, jmp, cap_start, cap_end, assign_, anchor_, len_, rpos_,
  rtab_, pos_, tab_, instr_bytes,
}
use libsnobol.Strings.{has_prefix}
use libsnobol.Vm.Bytes.{Bytes}
use libsnobol.Vm.Cursor.{skip_codepoints, walk_back, walk_on}

abbrev pub Threads : Type 0
Threads = List (ℕ × ℕ)

-- the threads at `ip` for each of the positions
abbrev pub at_each : ℕ → List ℕ → Threads
at_each ip [] = []
at_each ip (p ∷ ps) = (ip, p) ∷ at_each ip ps

-- what an instruction makes of a thread at cursor `p`, where `next` is the position behind it
unfoldable pub successors : Bytes → Instr → ℕ → ℕ → Threads
successors s accept next p = []
successors s fail_ next p = []
successors s rem_ next p = (next, length s) ∷ []
successors s (lit text) next p =
    at_each next (one_if (has_prefix text (drop p s)) (p + length text))
successors s (split a b) next p = (a, p) ∷ (b, p) ∷ []
successors s (jmp target) next p = (target, p) ∷ []
successors s (cap_start reg) next p = (next, p) ∷ []
successors s (cap_end reg) next p = (next, p) ∷ []
successors s (assign_ var reg) next p = (next, p) ∷ []
successors s (anchor_ type) next p =
    at_each next (one_if (if type == 0 then p == 0 else p == length s) p)
successors s (len_ n) next p = at_each next (from_option (skip_codepoints n s p))
successors s (rpos_ n) next p = at_each next (one_if (p == walk_back n s (length s)) p)
successors s (rtab_ n) next p =
    at_each next (one_if (leb p (walk_back n s (length s))) (walk_back n s (length s)))
successors s (pos_ n) next p = at_each next (one_if (p == walk_on n s 0) p)
successors s (tab_ n) next p = at_each next (tab_ends n s p)

-- The operands of the instruction are kept whole in its bytes. ACCEPT leaves the machine.
abbrev pub Fits : ℕ → Instr → Type 0
Fits ip accept = ⊥
Fits ip (lit text) = (ip + 9 < 2 ^ 32) × (length text < 2 ^ 32)
Fits ip (split a b) = (a < 2 ^ 32) × (b < 2 ^ 32)
Fits ip (jmp target) = target < 2 ^ 32
Fits ip (anchor_ type) = type < 256
Fits ip (len_ n) = n < 2 ^ 32
Fits ip (rpos_ n) = n < 2 ^ 32
Fits ip (rtab_ n) = n < 2 ^ 32
Fits ip (pos_ n) = n < 2 ^ 32
Fits ip (tab_ n) = n < 2 ^ 32
Fits ip _ = Unit {0}

module _ (bc s : Bytes) where
  -- The threads end with the answer: the cursor of the first thread that accepts, or none.
  pub data Answers : Threads → Option ℕ → Type 0 where
    exhausted : Answers [] none
    accepts : {ip p : ℕ} {ts : Threads} → Sits bc ip (0 ∷ []) → Answers ((ip, p) ∷ ts) (some p)
    steps :
        {ip p : ℕ} {ts : Threads} {r : Option ℕ} (i : Instr)
        → Fits ip i
        → Sits bc ip (instr_bytes ip i)
        → Answers (successors s i (ip + length (instr_bytes ip i)) p ++ ts) r
        → Answers ((ip, p) ∷ ts) r

  -- every answer of `old` is one of `new`
  abbrev pub Simulates : Threads → Threads → Type 0
  Simulates new old = (r : Option ℕ) → Answers old r → Answers new r

  below_equal :
      (above old new : Threads) {ts : Threads} {r : Option ℕ}
      → Simulates new old
      → ts ≡ above ++ old
      → Answers ts r
      → Answers (above ++ new) r
  below_equal [] old new {ts} {r} h e d = h r (subst (λ t. Answers t r) e d)
  below_equal (t ∷ above) old new h e exhausted = absurd (cc)
  below_equal (t ∷ above) old new h e (accepts {ip} {p} sits) =
      let first : (ip, p) ≡ t = cc in
      subst (λ q. Answers (q ∷ above ++ new) (some p)) first (accepts sits)
  below_equal (t ∷ above) old new h e (steps {ip} {p} {ts} {r} i fits sits d) =
      let first : (ip, p) ≡ t = cc in
      let rest : ts ≡ above ++ old = cc in
      let more = successors s i (ip + length (instr_bytes ip i)) p in
      let under =
        below_equal (more ++ above) old new h
          (ap (λ q. more ++ q) rest ∙ sym (append_assoc more above old)) d in
      subst (λ q. Answers (q ∷ above ++ new) r) first
        (steps i fits sits (subst (λ q. Answers q r) (append_assoc more above new) under))

  -- Threads below others may be replaced by threads with the same answers.
  pub Simulates-below :
      (above old new : Threads) → Simulates new old → Simulates (above ++ new) (above ++ old)
  Simulates-below above old new h r d = below_equal above old new h refl d
