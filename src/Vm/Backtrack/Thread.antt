-- ===== src/Vm/Backtrack/Thread.antt =====
-- The invariant of a run above a live choice record, and the elementary operations that keep it:
-- `vm_push_choice` and `vm_pop_choice` of core/src/vm_choice.c and the logged register writes.
use libsnobol.Base.{
  ℕ, ◌+◌, ◌≤◌, ◌<◌, ◌^◌, ◌≡◌, refl, ap, sym, subst, ◌∙◌, Bool, true, false, List, [], ◌∷◌, ◌++◌,
  some, arith, length, if◌then◌else◌, ◌==◌, length-append, ◌≢◌,
}
use mathlib.Core.Path.{ap₂}
use libsnobol.Vm.Arena.{Arena, arena_pop_last}
use libsnobol.Vm.Arena.Stack
use libsnobol.Vm.Arena.Stack.{
  items, items-arena_alloc, arena_alloc-IsValid, arena_pop_last_lem, items-nil,
}
use libsnobol.Vm.Backtrack.Replay.{
  replay_caps, replay_records-caps, le-length-cut, replay_caps-replay_caps, cut-cut,
}
use libsnobol.Vm.Choices.{
  choice_record, push_choice, restore, pop_choice, drop_choice, compact_header_size, choice_size,
}
use libsnobol.Vm.Handlers.Outcome.{running, backtrack}
use libsnobol.Vm.State.{Captures, UndoRecord, Choice, compact, snapshot, Vm}
use libsnobol.Vm.Trail.{cut, trail_replay}

-- a compact record whose trail base is at least `base`
abbrev pub Above : ℕ → Choice → Type 0
Above base (compact ip pos var_count caps counters trail_base) = base ≤ trail_base
Above base (snapshot ip pos var_count caps counters a b c d) = ⊥

abbrev pub AllAbove : ℕ → List Choice → Type 0
AllAbove base [] = Unit {0}
AllAbove base (c ∷ cs) = Above base c × AllAbove base cs

-- The state above the choice records `keep`: `newer` records lie on them, the trail below `base` is
-- `below`, and undoing the trail down to `base` gives the registers `target`.
pub record Thread (base : ℕ) (below : List UndoRecord) (target : Captures) (keep : List Choice)
    (mode : Bool) (arena : Arena Choice) (trail : List UndoRecord) (caps : Captures) : Type 0 where
  pub compact_mode : mode ≡ true
  pub valid : Stack.IsValid arena
  pub newer : List Choice
  pub stack : items arena ≡ newer ++ keep
  pub bases : AllAbove base newer
  pub deep : base ≤ length trail
  pub rest : cut trail base ≡ below
  pub undone : replay_caps trail base caps ≡ target

abbrev pub ThreadOf : ℕ → List UndoRecord → Captures → List Choice → Vm → Type 0
ThreadOf base below target keep vm =
    Thread base below target keep vm.use_compact_choice vm.arena vm.trail.records vm.regs.caps

-- A state whose choice stack still ends in `keep`, with a trail that a `uint32_t` counts.
pub record Within (keep : List Choice) (vm : Vm) : Type 0 where
  pub newer : List Choice
  pub stack : items vm.arena ≡ newer ++ keep
  pub short : length vm.trail.records < 2 ^ 32

pub choice_record-compact :
    (ip pos : ℕ) (vm : Vm)
    → vm.use_compact_choice ≡ true
    → length vm.trail.records < 2 ^ 32
    → choice_record ip pos vm
      ≡ compact ip pos vm.var_count vm.max_cap_used vm.max_counter_used (length vm.trail.records)
unfolding choice_record
choice_record-compact ip pos vm mode short = ground arith

payload_of : Vm → ℕ
payload_of vm = if vm.use_compact_choice then compact_header_size + 4 else choice_size

-- On a valid arena with `c` on top, the pop restores from `c` and drops it.
pub pop_choice-some :
    (vm : Vm) {c : Choice} {cs : List Choice}
    → Stack.IsValid vm.arena
    → items vm.arena ≡ c ∷ cs
    → pop_choice vm ≡ some (drop_choice (restore c vm))
unfolding pop_choice
pop_choice-some vm {c} v e =
    let (live, top, _, _) = arena_pop_last_lem vm.arena v e in
    let on : (vm.arena.total_used == 0) ≡ false = ground arith in rw (on, top)

append-ne-tail : (zs : List Choice) (c : Choice) (cs : List Choice) → cs ≢ zs ++ c ∷ cs
append-ne-tail zs c cs e = omega (arith, ap length e, length-append zs (c ∷ cs))

module _ {base : ℕ} {below : List UndoRecord} {target : Captures} {keep : List Choice} where
  pub push_choice-Thread :
      (ip pos : ℕ) (vm : Vm)
      → length vm.trail.records < 2 ^ 32
      → ThreadOf base below target keep vm
      → ThreadOf base below target keep (push_choice ip pos vm)
  unfolding push_choice
  push_choice-Thread ip pos vm short t =
      let c = choice_record-compact ip pos vm t.compact_mode short in
      record {
        compact_mode = t.compact_mode;
        valid = arena_alloc-IsValid _ _ vm.arena t.valid;
        newer =
            compact ip pos vm.var_count vm.max_cap_used vm.max_counter_used
              (length vm.trail.records)
            ∷ t.newer;
        stack = items-arena_alloc _ _ vm.arena ∙ ap₂ ◌∷◌ c t.stack;
        bases = (t.deep, t.bases);
        deep = t.deep;
        rest = t.rest;
        undone = t.undone;
      }

-- the pop of a record above `keep`
pop-newer :
    {base : ℕ} {below : List UndoRecord} {target : Captures} {keep : List Choice} (c : Choice)
    (cs : List Choice) (vm : Vm)
    → Above base c
    → AllAbove base cs
    → items vm.arena ≡ c ∷ cs ++ keep
    → ThreadOf base below target keep vm
    → ThreadOf base below target keep (drop_choice (restore c vm))
unfolding drop_choice restore trail_replay
pop-newer {base} (compact ip pos var_count mc mk tb) cs vm h hs e t =
    let (_, _, left, ok) = arena_pop_last_lem vm.arena t.valid e in
    let es = vm.trail.records in
    record {
      compact_mode = t.compact_mode;
      valid = ok;
      newer = cs;
      stack = left;
      bases = hs;
      deep = le-length-cut es base tb h t.deep;
      rest = cut-cut es base tb h ∙ t.rest;
      undone =
          ap (replay_caps (cut es tb) base) (replay_records-caps es tb vm.regs)
          ∙ replay_caps-replay_caps es base tb vm.regs.caps h
          ∙ t.undone;
    }
pop-newer (snapshot ip pos var_count mc mk a b c d) cs vm h hs e t = absurd h

restore-arena : (c : Choice) (vm : Vm) → (restore c vm).arena ≡ vm.arena
unfolding restore trail_replay
restore-arena (compact ip pos var_count mc mk tb) vm = refl
restore-arena (snapshot ip pos var_count mc mk a b c d) vm = refl

-- a pop takes the first record off
pub items-drop_choice :
    (c : Choice) (cs : List Choice) (vm : Vm)
    → Stack.IsValid vm.arena
    → items vm.arena ≡ c ∷ cs
    → items (drop_choice (restore c vm)).arena ≡ cs
unfolding drop_choice
items-drop_choice c cs vm v e =
    let (_, _, left, _) = arena_pop_last_lem vm.arena v e in
    ap (λ a. items (arena_pop_last a)) (restore-arena c vm) ∙ left

backtrack-popped :
    (c : Choice) (cs : List Choice) (vm : Vm) {vm' : Vm}
    → Stack.IsValid vm.arena
    → items vm.arena ≡ c ∷ cs
    → backtrack vm ≡ running vm'
    → drop_choice (restore c vm) ≡ vm'
unfolding backtrack
backtrack-popped c cs vm v e r = ground (arith, pop_choice-some vm v e)

backtrack_from :
    {base : ℕ} {below : List UndoRecord} {target : Captures} (first : Choice) (keep : List Choice)
    (vm : Vm) {vm' : Vm} (newer : List Choice)
    → items vm.arena ≡ newer ++ first ∷ keep
    → AllAbove base newer
    → backtrack vm ≡ running vm'
    → Within (first ∷ keep) vm'
    → ThreadOf base below target (first ∷ keep) vm
    → ThreadOf base below target (first ∷ keep) vm'
backtrack_from first keep vm [] e hs r w t =
    let same = backtrack-popped first keep vm t.valid e r in
    let left = items-drop_choice first keep vm t.valid e in
    absurd (append-ne-tail w.newer first keep (sym left ∙ ap (λ v. items v.arena) same ∙ w.stack))
backtrack_from {base} {below} {target} first keep vm (c ∷ cs) e hs r w t =
    subst (ThreadOf base below target (first ∷ keep))
      (backtrack-popped c (cs ++ first ∷ keep) vm t.valid e r) (pop-newer c cs vm hs.0 hs.1 e t)

-- A handler that backtracks and stays above `first ∷ keep` keeps the invariant.
pub backtrack-Thread :
    {base : ℕ} {below : List UndoRecord} {target : Captures} (first : Choice) (keep : List Choice)
    (vm : Vm) {vm' : Vm}
    → backtrack vm ≡ running vm'
    → Within (first ∷ keep) vm'
    → ThreadOf base below target (first ∷ keep) vm
    → ThreadOf base below target (first ∷ keep) vm'
backtrack-Thread first keep vm r w t = backtrack_from first keep vm t.newer t.stack t.bases r w t
