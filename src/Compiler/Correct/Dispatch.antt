-- ===== src/Compiler/Correct/Dispatch.antt =====
-- One round of the dispatch of core/src/vm_exec.c on an instruction of a plain pattern: it does to the
-- machine what the instruction does to the threads.
use libsnobol.Base.{
  ℕ, ◌+◌, ◌≡◌, refl, ap, sym, subst, ◌∙◌, Bool, true, false, ◌∷◌, ◌++◌, Option, none, some, arith,
  length, if◌then◌else◌, ltb, leb, Bool-cases, inl, inr,
}
use libsnobol.Compiler.Correct.Layout.{Sits, at-Sits, Sits-bound}
use libsnobol.Compiler.Correct.Machine.{Keeps, Shows, goes, backtracks, all_resume}
use libsnobol.Compiler.Correct.Meaning.{one_if, from_option}
use libsnobol.Compiler.Correct.Registers.{Frame}
use libsnobol.Compiler.Correct.Threads.{Threads, at_each}
use libsnobol.Vm.Arena.Stack
use libsnobol.Vm.Arena.Stack.{items}
use libsnobol.Vm.Bytes.{Bytes}
use libsnobol.Vm.Exec.{decode, dispatch, step}
use libsnobol.Vm.Handlers.Matching.{move}
use libsnobol.Vm.Handlers.Outcome.{Outcome, running}
use libsnobol.Vm.State.{Vm}

-- the round on the opcode that stands at the instruction pointer
pub step-Sits :
    (vm : Vm) (b : ℕ) (xs : Bytes)
    → Sits vm.bc vm.ip (b ∷ xs)
    → step vm ≡ dispatch (decode b) (record vm { ip = vm.ip + 1 })
unfolding step
step-Sits vm b xs h =
    let inside : leb (length vm.bc) vm.ip ≡ false = ground (arith, Sits-bound (b ∷ xs) h) in
    rw (inside, at-Sits h) refl

module _ {bc s : Bytes} where
  pub goes_on :
      {ts : Threads} (vm : Vm) (next : ℕ)
      → vm.ip ≡ next
      → Keeps bc s ts vm
      → Shows bc s ((next, vm.pos) ∷ ts) (running vm)
  goes_on {ts} vm next e k = subst (λ t. Shows bc s ((t, vm.pos) ∷ ts) (running vm)) e (goes k)

  -- the same threads wait in a state that differs in the running thread only
  pub again :
      {ts : Threads} {vm : Vm} {ip pos : ℕ}
      → Keeps bc s ts vm
      → Keeps bc s ts (record vm { ip = ip; pos = pos })
  again k = record {
    code_is = k.code_is;
    subject_is = k.subject_is;
    valid = k.valid;
    waiting = k.waiting;
  }

  -- a test that moves on or backtracks
  pub branches :
      {ts : Threads} (b : Bool) (x y : Outcome) (next p : ℕ)
      → Shows bc s ((next, p) ∷ ts) x
      → Shows bc s ts y
      → Shows bc s (at_each next (one_if b p) ++ ts) (if b then x else y)
  branches true x y next p hx hy = hx
  branches false x y next p hx hy = hy

  pub branches_not :
      {ts : Threads} (a b : ℕ) (x y : Outcome) (next p : ℕ)
      → Shows bc s ((next, p) ∷ ts) x
      → Shows bc s ts y
      → Shows bc s (at_each next (one_if (leb a b) p) ++ ts) (if ltb b a then y else x)
  branches_not {ts} a b x y next p hx hy = elim (Bool-cases (leb a b)) [
    | inl le ↦ let lt : ltb b a ≡ false = ground arith in rw (le, lt) hx
    | inr nle ↦ let lt : ltb b a ≡ true = ground arith in rw (nle, lt) hy
  ]

  pub moves :
      {ts : Threads} (o : Option ℕ) (vm : Vm) (next : ℕ)
      → vm.ip ≡ next
      → Keeps bc s ts vm
      → Shows bc s (at_each next (from_option o) ++ ts) (move o vm)
  unfolding move
  moves none vm next e k = backtracks vm k
  moves (some p) vm next e k =
      goes_on (record vm { pos = p }) next e
        (record {
          code_is = k.code_is;
          subject_is = k.subject_is;
          valid = k.valid;
          waiting = k.waiting;
        })

  pub framed :
      {ts : Threads} {vm vm' : Vm} (next : ℕ)
      → Frame vm vm'
      → vm.ip ≡ next
      → Keeps bc s ts vm
      → Shows bc s ((next, vm.pos) ∷ ts) (running vm')
  framed {ts} {vm} {vm'} next f e k =
      let k' : Keeps bc s ts vm' = record {
        code_is = f.same_bc ∙ k.code_is;
        subject_is = f.same_s ∙ k.subject_is;
        valid = subst Stack.IsValid (sym f.same_arena) k.valid;
        waiting = ap (λ a. all_resume (items a)) f.same_arena ∙ k.waiting;
      } in
      subst (λ p. Shows bc s ((next, p) ∷ ts) (running vm')) f.same_pos
        (goes_on vm' next (f.same_ip ∙ e) k')
