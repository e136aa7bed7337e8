-- ===== src/Compiler/Correct/Cuts.antt =====
-- OP_FENCE of core/src/vm_exec.c on the choice stack of core/src/vm_choice.c.
use libsnobol.Base.{
  ℕ, zero, suc, ◌<◌, ◌≡◌, refl, ap, sym, subst, ◌∙◌, [], ◌∷◌, Option, none, some, arith, length,
}
use libsnobol.Compiler.Correct.Machine.{
  Keeps, Shows, ended, goes, backtracks, push_choice-Keeps, all_resume,
}
use libsnobol.Compiler.Correct.Threads.{Threads}
use libsnobol.Vm.Arena.{Arena, arena_reset}
use libsnobol.Vm.Arena.Stack
use libsnobol.Vm.Arena.Stack.{items, arena_reset-IsValid, items-arena_reset}
use libsnobol.Vm.Bytes.{Bytes}
use libsnobol.Vm.Choices.{push_choice}
use libsnobol.Vm.Handlers.Control.{op_fence}
use libsnobol.Vm.Handlers.Outcome.{Outcome, running, matched, failed, outside, backtrack}
use libsnobol.Vm.State.{Choice, Vm}

-- where one failure after another goes on, until the match fails; `none` where it has not failed
-- within the fuel
unfoldable pub resumptions : ℕ → Vm → Option Threads
unfolding backtrack
resumptions zero vm = none
resumptions (suc fuel) vm = elim (backtrack vm) [
  | running w ↦ elim (resumptions fuel w) [ none ↦ none | some ts ↦ some ((w.ip, w.pos) ∷ ts) ]
  | matched w ↦ none
  | failed w ↦ some []
  | outside exit w ↦ none
]

-- choices pushed one on the other, the first of the list last
abbrev pub push_all : Threads → Vm → Vm
push_all [] vm = vm
push_all ((ip, pos) ∷ ts) vm = push_choice ip pos (push_all ts vm)

resumptions-Keeps :
    {bc s : Bytes} (fuel : ℕ) (ts : Threads) (vm : Vm)
    → Keeps bc s ts vm
    → length ts < fuel
    → resumptions fuel vm ≡ some ts
unfolding resumptions
resumptions-Keeps zero ts vm k h = elim (none_below h) [ ]
  where
    none_below : ¬ (length ts < 0)
    none_below = omega arith
resumptions-Keeps {bc} {s} (suc fuel) ts vm k h =
    after (λ ts w k h. resumptions-Keeps fuel ts w k h) (backtrack vm) ts (backtracks vm k) h
  where
    after :
        ((ts : Threads) (w : Vm)
          → Keeps bc s ts w
          → length ts < fuel
          → resumptions fuel w ≡ some ts)
        → (o : Outcome) (ts : Threads) → Shows bc s ts o
        → length ts < suc fuel
        → (elim o [
          | running w ↦ elim (resumptions fuel w) [
            | none ↦ none
            | some ts ↦ some ((w.ip, w.pos) ∷ ts)
          ]
          | matched w ↦ none
          | failed w ↦ some []
          | outside exit w ↦ none
        ])
          ≡ some ts
    after rest _ _ ended h = refl
    after rest _ _ (goes {vm = w} {ts = ts} k) h = rw (rest ts w k (omega (arith, h))) refl

push_all-Keeps :
    {bc s : Bytes} (ts : Threads) (vm : Vm) → Keeps bc s [] vm → Keeps bc s ts (push_all ts vm)
push_all-Keeps [] vm k = k
push_all-Keeps ((ip, pos) ∷ ts) vm k =
    push_choice-Keeps ip pos (push_all ts vm) (push_all-Keeps ts vm k)

arena_of : Outcome → Arena Choice
arena_of (running w) = w.arena
arena_of (matched w) = w.arena
arena_of (failed w) = w.arena
arena_of (outside exit w) = w.arena

-- FENCE goes on in `w`. Let `pushed` be the choices pushed since then, the last one first, and `v` any
-- state with a valid arena and with just them on the alternatives that `w` has. Then one failure after
-- another in `v` goes on at each of `pushed` in turn, and then the match fails: no alternative from
-- before FENCE is taken.
pub resumptions-op_fence :
    (vm v w : Vm) (pushed : Threads) (fuel : ℕ)
    → op_fence vm ≡ running w
    → Stack.IsValid v.arena
    → items v.arena ≡ items (push_all pushed w).arena
    → length pushed < fuel
    → resumptions fuel v ≡ some pushed
unfolding op_fence arena_of
resumptions-op_fence vm v w pushed fuel e valid same h =
    let reset : arena_reset vm.arena ≡ w.arena = ap arena_of e in
    let fenced : Keeps w.bc w.s [] w = record {
      code_is = refl;
      subject_is = refl;
      valid = subst Stack.IsValid reset (arena_reset-IsValid vm.arena);
      waiting =
          ap (λ a. all_resume (items a)) (sym reset) ∙ ap all_resume (items-arena_reset vm.arena);
    } in
    resumptions-Keeps fuel pushed v
      (record {
        code_is = refl;
        subject_is = refl;
        valid = valid;
        waiting = ap all_resume same ∙ (push_all-Keeps pushed w fenced).waiting;
      })
      h
