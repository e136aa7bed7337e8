-- ===== src/Compiler/Correct/Machine.antt =====
-- The virtual machine of core/src/vm_exec.c refines the abstract machine of threads: its cursor and
-- instruction pointer are the first thread, and its live choice records are the others.
use libsnobol.Base.{ℕ, ◌≡◌, refl, ap, sym, subst, ◌∙◌, List, [], ◌∷◌, arith}
use libsnobol.Compiler.Correct.Threads.{Threads}
use libsnobol.Vm.Arena.Stack
use libsnobol.Vm.Arena.Stack.{items, items-arena_alloc, arena_alloc-IsValid, arena_pop_last_lem}
use libsnobol.Vm.Backtrack.Thread.{pop_choice-some}
use libsnobol.Vm.Bounds.Steps.{no_choice}
use libsnobol.Vm.Bytes.{Bytes}
use libsnobol.Vm.Choices.{choice_record, push_choice, restore, drop_choice}
use libsnobol.Vm.Handlers.Outcome.{Outcome, running, failed, retry, backtrack}
use libsnobol.Vm.State.{Choice, compact, snapshot, Vm}
use libsnobol.Vm.Trail.{trail_replay}

-- where a choice record resumes
abbrev pub resumes : Choice → ℕ × ℕ
resumes (compact ip pos var_count mc mk base) = (ip, pos)
resumes (snapshot ip pos var_count mc mk a b c d) = (ip, pos)

abbrev pub all_resume : List Choice → Threads
all_resume [] = []
all_resume (c ∷ cs) = resumes c ∷ all_resume cs

-- The machine runs `bc` on `s`, and its live choice records are the threads `ts`.
pub record Keeps (bc s : Bytes) (ts : Threads) (vm : Vm) : Type 0 where
  pub code_is : vm.bc ≡ bc
  pub subject_is : vm.s ≡ s
  pub valid : Stack.IsValid vm.arena
  pub waiting : all_resume (items vm.arena) ≡ ts

-- The outcome of a step shows the threads: failed with none, else running the first.
pub data Shows (bc s : Bytes) : Threads → Outcome → Type 0 where
  ended : {vm : Vm} → Shows bc s [] (failed vm)
  goes :
      {vm : Vm} {ts : Threads} → Keeps bc s ts vm → Shows bc s ((vm.ip, vm.pos) ∷ ts) (running vm)

resumes-choice_record : (ip pos : ℕ) (vm : Vm) → resumes (choice_record ip pos vm) ≡ (ip, pos)
unfolding choice_record
resumes-choice_record ip pos vm = ground arith

module _ {bc s : Bytes} where
  pub push_choice-Keeps :
      {ts : Threads} (ip pos : ℕ) (vm : Vm)
      → Keeps bc s ts vm
      → Keeps bc s ((ip, pos) ∷ ts) (push_choice ip pos vm)
  unfolding push_choice
  push_choice-Keeps ip pos vm k = record {
    code_is = k.code_is;
    subject_is = k.subject_is;
    valid = arena_alloc-IsValid _ _ vm.arena k.valid;
    waiting =
        ap all_resume (items-arena_alloc _ _ vm.arena)
        ∙ cc (resumes-choice_record ip pos vm, k.waiting);
  }

  popped :
      (c : Choice) (cs : List Choice) (vm : Vm) {ts : Threads}
      → items vm.arena ≡ c ∷ cs
      → all_resume cs ≡ ts
      → vm.bc ≡ bc
      → vm.s ≡ s
      → Stack.IsValid vm.arena
      → Shows bc s (resumes c ∷ ts) (running (drop_choice (restore c vm)))
  unfolding drop_choice restore trail_replay
  popped (compact ip pos vc mc mk tb) cs vm e w b t v =
      let (_, _, left, ok) = arena_pop_last_lem vm.arena v e in
      goes (record { code_is = b; subject_is = t; valid = ok; waiting = ap all_resume left ∙ w })
  popped (snapshot ip pos vc mc mk x1 x2 x3 x4) cs vm e w b t v =
      let (_, _, left, ok) = arena_pop_last_lem vm.arena v e in
      goes (record { code_is = b; subject_is = t; valid = ok; waiting = ap all_resume left ∙ w })

  backtracks_by :
      (vm : Vm) (cs : List Choice) (ts : Threads)
      → items vm.arena ≡ cs
      → Keeps bc s ts vm
      → Shows bc s ts (backtrack vm)
  unfolding backtrack retry
  backtracks_by vm [] ts e k =
      let none_left : [] ≡ ts = ap all_resume (sym e) ∙ k.waiting in
      rw (no_choice vm k.valid e) (subst (λ t. Shows bc s t (failed vm)) none_left ended)
  backtracks_by vm (c ∷ cs) ts e k =
      let all : resumes c ∷ all_resume cs ≡ ts = ap all_resume (sym e) ∙ k.waiting in
      rw (pop_choice-some vm k.valid e) (
        subst (λ t. Shows bc s t (running (drop_choice (restore c vm)))) all
          (popped c cs vm e refl k.code_is k.subject_is k.valid))

  -- Backtracking goes on with the first waiting thread.
  pub backtracks : (vm : Vm) {ts : Threads} → Keeps bc s ts vm → Shows bc s ts (backtrack vm)
  backtracks vm {ts} k = backtracks_by vm (items vm.arena) ts refl k
