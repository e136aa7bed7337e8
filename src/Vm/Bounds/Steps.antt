-- ===== src/Vm/Bounds/Steps.antt =====
-- The cursor and the cursors that the choice records save lie within the subject: the invariant, and
-- the parts of the handlers of core/src/vm_exec.c that keep it.
use libsnobol.Base.{
  ℕ, ◌≤◌, ◌≡◌, refl, sym, subst, Bool, true, false, List, [], ◌∷◌, Option, none, some, arith, ◌==◌,
  if◌then◌else◌, length,
}
use libsnobol.Vm.Arena.{Arena}
use libsnobol.Vm.Arena.Stack
use libsnobol.Vm.Arena.Stack.{
  items, items-arena_alloc, arena_alloc-IsValid, arena_pop_last_lem, total_used-zero,
  items-arena_reset, arena_reset-IsValid,
}
use libsnobol.Vm.Backtrack.Thread.{pop_choice-some}
use libsnobol.Vm.Bytes.{Bytes}
use libsnobol.Vm.Choices.{choice_record, push_choice, pop_choice, restore, drop_choice}
use libsnobol.Vm.Handlers.Matching.{move}
use libsnobol.Vm.Handlers.Outcome.{
  Outcome, running, matched, failed, outside, Exit, retry, backtrack, leave, backtrack_and_leave,
}
use libsnobol.Vm.State.{Choice, compact, snapshot, Vm}
use libsnobol.Vm.Trail.{trail_replay}

abbrev pub saved_pos : Choice → ℕ
saved_pos (compact ip pos var_count mc mk base) = pos
saved_pos (snapshot ip pos var_count mc mk a b c d) = pos

abbrev pub AllWithin : ℕ → List Choice → Type 0
AllWithin len [] = Unit {0}
AllWithin len (c ∷ cs) = (saved_pos c ≤ len) × AllWithin len cs

pub record InSubject (s : Bytes) (pos : ℕ) (arena : Arena Choice) : Type 0 where
  pub cursor : pos ≤ length s
  pub valid : Stack.IsValid arena
  pub saved : AllWithin (length s) (items arena)

-- The cursor and every saved cursor lie within the subject, on a valid arena.
abbrev pub IsInSubject : Vm → Type 0
IsInSubject vm = InSubject vm.s vm.pos vm.arena

-- the same of the state that a handler ends in
unfoldable pub EndsInSubject : Outcome → Type 0
EndsInSubject (running vm) = IsInSubject vm
EndsInSubject (matched vm) = IsInSubject vm
EndsInSubject (failed vm) = IsInSubject vm
EndsInSubject (outside op vm) = IsInSubject vm

pub moved :
    {s : Bytes} {pos : ℕ} {arena : Arena Choice} (pos' : ℕ)
    → InSubject s pos arena
    → pos' ≤ length s
    → InSubject s pos' arena
moved pos' v h = record { cursor = h; valid = v.valid; saved = v.saved }

saved_pos-choice_record : (ip pos : ℕ) (vm : Vm) → saved_pos (choice_record ip pos vm) ≡ pos
unfolding choice_record
saved_pos-choice_record ip pos vm = ground arith

pub push_choice-IsInSubject :
    (ip pos : ℕ) (vm : Vm)
    → pos ≤ length vm.s
    → IsInSubject vm
    → IsInSubject (push_choice ip pos vm)
unfolding push_choice
push_choice-IsInSubject ip pos vm h v = record {
  cursor = v.cursor;
  valid = arena_alloc-IsValid _ _ vm.arena v.valid;
  saved =
      subst (AllWithin (length vm.s)) (sym (items-arena_alloc _ (choice_record ip pos vm) vm.arena))
        (omega (arith, saved_pos-choice_record ip pos vm), v.saved);
}

pop-IsInSubject :
    (c : Choice) (cs : List Choice) (vm : Vm)
    → items vm.arena ≡ c ∷ cs
    → IsInSubject vm
    → IsInSubject (drop_choice (restore c vm))
unfolding drop_choice restore trail_replay
pop-IsInSubject (compact ip pos vc mc mk tb) cs vm e v =
    let all = subst (AllWithin (length vm.s)) e v.saved in
    let (_, _, left, ok) = arena_pop_last_lem vm.arena v.valid e in
    record { cursor = all.0; valid = ok; saved = subst (AllWithin (length vm.s)) (sym left) all.1 }
pop-IsInSubject (snapshot ip pos vc mc mk a b c d) cs vm e v =
    let all = subst (AllWithin (length vm.s)) e v.saved in
    let (_, _, left, ok) = arena_pop_last_lem vm.arena v.valid e in
    record { cursor = all.0; valid = ok; saved = subst (AllWithin (length vm.s)) (sym left) all.1 }

pub no_choice : (vm : Vm) → Stack.IsValid vm.arena → items vm.arena ≡ [] → pop_choice vm ≡ none
unfolding pop_choice
no_choice vm v e =
    let none_left : (vm.arena.total_used == 0) ≡ true =
      ground (arith, total_used-zero vm.arena v e) in
    rw none_left

backtrack_by :
    (vm : Vm) (cs : List Choice)
    → items vm.arena ≡ cs
    → IsInSubject vm
    → EndsInSubject (backtrack vm) × EndsInSubject (backtrack_and_leave vm)
unfolding backtrack backtrack_and_leave retry leave EndsInSubject
backtrack_by vm [] e v = rw (no_choice vm v.valid e) (v, v)
backtrack_by vm (c ∷ cs) e v =
    let popped = pop-IsInSubject c cs vm e v in rw (pop_choice-some vm v.valid e) (popped, popped)

pub ends-backtrack : (vm : Vm) → IsInSubject vm → EndsInSubject (backtrack vm)
ends-backtrack vm v = (backtrack_by vm (items vm.arena) refl v).0

pub ends-backtrack_and_leave : (vm : Vm) → IsInSubject vm → EndsInSubject (backtrack_and_leave vm)
ends-backtrack_and_leave vm v = (backtrack_by vm (items vm.arena) refl v).1

pub ends-running : (vm : Vm) → IsInSubject vm → EndsInSubject (running vm)
unfolding EndsInSubject
ends-running vm v = v

pub ends-outside : (exit : Exit) (vm : Vm) → IsInSubject vm → EndsInSubject (outside exit vm)
unfolding EndsInSubject
ends-outside exit vm v = v

pub ends-if :
    (b : Bool) (x y : Outcome)
    → EndsInSubject x
    → EndsInSubject y
    → EndsInSubject (if b then x else y)
ends-if true x y p q = p
ends-if false x y p q = q

pub branch-IsInSubject :
    (b : Bool) (x y : Vm) → IsInSubject x → IsInSubject y → IsInSubject (if b then x else y)
branch-IsInSubject true x y p q = p
branch-IsInSubject false x y p q = q

-- the positions that a step function may return
abbrev pub Lands : Bytes → Option ℕ → Type 0
Lands s none = Unit {0}
Lands s (some p) = p ≤ length s

pub within-Lands : (s : Bytes) (o : Option ℕ) → ((q : ℕ) → o ≡ some q → q ≤ length s) → Lands s o
within-Lands s none f = tt
within-Lands s (some q) f = f q refl

pub ends-move : (p : Option ℕ) (vm : Vm) → Lands vm.s p → IsInSubject vm → EndsInSubject (move p vm)
unfolding move
ends-move none vm h v = ends-backtrack vm v
ends-move (some p) vm h v = ends-running _ (moved p v h)
