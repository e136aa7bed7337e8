-- ===== src/Compiler/Correct/Execution.antt =====
-- A compiled plain pattern from `compile_ast_to_bytecode_c` of core/src/compiler_codegen.c to the end
-- of `vm_exec` of core/src/vm_exec.c.
use libsnobol.Base.{
  ℕ, suc, zero, ◌+◌, ◌^◌, ◌<◌, ◌≡◌, refl, ap, sym, subst, ◌∙◌, Bool, false, List, [], ◌∷◌, ◌++◌,
  Option, none, some, length,
}
use mathlib.Core.List.{append_assoc}
use libsnobol.Compiler.Ast.{Node}
use libsnobol.Compiler.Code.{done, u32_bytes, cb_emit_u8, cb_emit_u32}
use libsnobol.Compiler.Compile.{compile_ast_to_bytecode, start, finish, emit_charclasses}
use libsnobol.Compiler.Correct.Behaviour.{code-Simulates}
use libsnobol.Compiler.Correct.Instructions.{step-Shows, step-accept}
use libsnobol.Compiler.Correct.Layout.{Sits, Sits-left, Sits-right}
use libsnobol.Compiler.Correct.Machine.{Keeps, Shows, ended, goes, all_resume}
use libsnobol.Compiler.Correct.Meaning.{ends}
use libsnobol.Compiler.Correct.Patching.{emit_node-code}
use libsnobol.Compiler.Correct.Plain.{IsPlain, code, instr_bytes}
use libsnobol.Compiler.Correct.Threads.{
  Threads, at_each, Answers, exhausted, accepts, steps, successors, Fits,
}
use libsnobol.Compiler.Emit.{op, opcode_number}
use libsnobol.Compiler.Folding.{FoldTables}
use libsnobol.Compiler.Fuse.{fuse_split_any}
use libsnobol.Compiler.Labels.{has_unknown_label, emit_label_table, emit_label_offsets}
use libsnobol.Vm.Arena.Stack.{arena_reset-IsValid, items-arena_reset}
use libsnobol.Vm.Bytes.{Bytes}
use libsnobol.Vm.Exec.{step, run, exec, run_start, exec_start}
use libsnobol.Vm.Handlers.Outcome.{Outcome, running, matched, failed, outside}
use libsnobol.Vm.State.{Vm}

-- The run ended with the answer: failed for none, matched with the cursor there for a position.
abbrev pub EndsWith : Option ℕ → Outcome → Type 0
EndsWith none o = (vm : Vm) × (o ≡ failed vm)
EndsWith (some p) o = (vm : Vm) × (o ≡ matched vm) × (vm.pos ≡ p)

abbrev pub Halts : Option ℕ → Vm → Type 0
Halts r vm = (fuel : ℕ) × EndsWith r (run fuel vm)

run-failed : (vm vm' : Vm) → step vm ≡ failed vm' → run (suc zero) vm ≡ failed vm'
unfolding run
run-failed vm vm' h =
    ap
      (λ (o : Outcome). elim o [
        | running v ↦ run zero v
        | matched v ↦ matched v
        | failed v ↦ failed v
        | outside op v ↦ outside op v
      ])
      h

run-matched : (vm vm' : Vm) → step vm ≡ matched vm' → run (suc zero) vm ≡ matched vm'
unfolding run
run-matched vm vm' h =
    ap
      (λ (o : Outcome). elim o [
        | running v ↦ run zero v
        | matched v ↦ matched v
        | failed v ↦ failed v
        | outside op v ↦ outside op v
      ])
      h

run-running : (fuel : ℕ) (vm vm' : Vm) → step vm ≡ running vm' → run (suc fuel) vm ≡ run fuel vm'
unfolding run
run-running fuel vm vm' h =
    ap
      (λ (o : Outcome). elim o [
        | running v ↦ run fuel v
        | matched v ↦ matched v
        | failed v ↦ failed v
        | outside op v ↦ outside op v
      ])
      h

failed_at : {r : Option ℕ} (vm vm' : Vm) → r ≡ none → step vm ≡ failed vm' → Halts r vm
failed_at {r} vm vm' e h =
    (suc zero, subst (λ q. EndsWith q (run (suc zero) vm)) (sym e) (vm', run-failed vm vm' h))

went_on : (r : Option ℕ) (vm vm' : Vm) → step vm ≡ running vm' → Halts r vm' → Halts r vm
went_on r vm vm' h (fuel, e) = (suc fuel, subst (EndsWith r) (sym (run-running fuel vm vm' h)) e)

module _ {bc s : Bytes} where
  none_left : {all : Threads} {r : Option ℕ} → Answers bc s all r → all ≡ [] → r ≡ none
  none_left exhausted e = refl
  none_left (accepts sits) e = cc
  none_left (steps i fits sits d) e = cc

  onward :
      {all : Threads} {r : Option ℕ} {o : Outcome} (vm : Vm)
      → Shows bc s all o
      → Answers bc s all r
      → step vm ≡ o
      → ((vm' : Vm) (ts : Threads) → all ≡ (vm'.ip, vm'.pos) ∷ ts → Keeps bc s ts vm' → Halts r vm')
      → Halts r vm
  onward vm (ended {vm = vm'}) d e rest = failed_at vm vm' (none_left d refl) e
  onward {all} {r} vm (goes {vm = vm'} {ts = ts} k) d e rest =
      went_on r vm vm' e (rest vm' ts refl k)

  Halts-by :
      {all : Threads} {r : Option ℕ}
      → Answers bc s all r
      → (vm : Vm) (ts : Threads) → all ≡ (vm.ip, vm.pos) ∷ ts
      → Keeps bc s ts vm
      → Halts r vm
  Halts-by exhausted vm ts e k = absurd (cc)
  Halts-by (accepts {ip} {p} sits) vm ts e k =
      let here : ip ≡ vm.ip = cc in
      let there : vm.pos ≡ p = cc in
      let last = step-accept vm k.code_is (subst (λ q. Sits bc q (0 ∷ [])) here sits) in
      (suc zero, (record vm { ip = vm.ip + 1 }, run-matched vm _ last, there))
  Halts-by (steps {ip = ip} {p = p} {ts = us} i fits sits d) vm ts e k =
      let here : ◌≡◌ {A = ℕ × ℕ} (ip, p) (vm.ip, vm.pos) = cc in
      let rest : us ≡ ts = cc in
      let shown =
        step-Shows i vm k (subst (λ (q : ℕ × ℕ). Fits q.0 i) here fits)
          (subst (λ (q : ℕ × ℕ). Sits bc q.0 (instr_bytes q.0 i)) here sits) in
      let there : successors s i (vm.ip + length (instr_bytes vm.ip i)) vm.pos ++ ts
          ≡ successors s i (ip + length (instr_bytes ip i)) p ++ us =
        ap (λ w. successors s i (vm.ip + length (instr_bytes vm.ip i)) vm.pos ++ w) (sym rest)
        ∙ ap (λ (q : ℕ × ℕ). successors s i (q.0 + length (instr_bytes q.0 i)) q.1 ++ us)
            (sym here) in
      onward vm (subst (λ q. Shows bc s q (step vm)) there shown) d refl (Halts-by d)

-- the first position of a list
abbrev pub first : List ℕ → Option ℕ
first [] = none
first (p ∷ ps) = some p

-- threads that stand at ACCEPT answer with the first of them
accepted :
    (bc s : Bytes) (ip : ℕ) (ps : List ℕ)
    → Sits bc ip (0 ∷ [])
    → Answers bc s (at_each ip ps ++ []) (first ps)
accepted bc s ip [] sits = exhausted
accepted bc s ip (p ∷ ps) sits = accepts sits

-- The state in which the dispatch loop starts holds no choice.
exec_start-Keeps : (mode : Bool) (vm : Vm) → Keeps vm.bc vm.s [] (run_start mode (exec_start vm))
unfolding exec_start run_start
exec_start-Keeps mode vm = record {
  code_is = refl;
  subject_is = refl;
  valid = arena_reset-IsValid vm.arena;
  waiting = ap all_resume (items-arena_reset vm.arena);
}

-- A plain pattern's code followed by ACCEPT, at the start of the bytecode, run from `vm_exec` on.
exec-code :
    (n : Node) (vm : Vm) (mode : Bool)
    → IsPlain n
    → length vm.bc < 2 ^ 32
    → Sits vm.bc 0 (code n 0 ++ 0 ∷ [])
    → (fuel : ℕ) × EndsWith (first (ends n vm.s 0)) (exec fuel mode vm)
unfolding exec exec_start run_start
exec-code n vm mode plain short sits =
    let at_end = Sits-right (code n 0) (0 ∷ []) sits in
    let answer =
      code-Simulates vm.bc vm.s short n 0 0 [] plain (Sits-left (code n 0) (0 ∷ []) sits) _
        (accepted vm.bc vm.s (0 + length (code n 0)) (ends n vm.s 0) at_end) in
    Halts-by answer (run_start mode (exec_start vm)) [] refl (exec_start-Keeps mode vm)

-- the sections behind the code of a pattern with no class and no label
no_sections : Bytes
no_sections = u32_bytes 0 ++ (u32_bytes 0 ++ u32_bytes 0x534E424C)

-- The fusion pass leaves the pattern's code as it is.
abbrev pub IsUnfused : Node → Type 0
IsUnfused n = fuse_split_any (code n 0 ++ 0 ∷ [], []) ≡ (code n 0 ++ 0 ∷ [], [])

sectioned : (b : Bytes) → emit_label_table [] (emit_charclasses [] b) ≡ b ++ no_sections
unfolding emit_label_table emit_label_offsets emit_charclasses cb_emit_u32 no_sections
sectioned b = simp append_assoc

compile-code :
    (t : FoldTables) (n : Node)
    → IsPlain n
    → IsUnfused n
    → compile_ast_to_bytecode t n false ≡ done ((code n 0 ++ 0 ∷ []) ++ no_sections)
unfolding compile_ast_to_bytecode start finish op opcode_number cb_emit_u8 has_unknown_label
compile-code t n plain unfused =
    let emitted = emit_node-code n (start t false) plain refl in
    rw (emitted, unfused) (ap done (sectioned (code n 0 ++ 0 ∷ [])))

-- A plain pattern (one of literals, concatenations, alternatives, captures, assignments, anchors, POS,
-- RPOS, TAB, RTAB, LEN, REM, FAIL and evaluated expressions around such nodes, with the counts of LEN
-- and the numbers of the positions below 2^32), which compiles with case kept to the bytecode of `vm`,
-- shorter than 2^32 bytes, and in whose code the fusion pass rewrites nothing, run on any subject and
-- in either choice mode: with enough rounds `vm_exec` ends, with a match at the first of the positions where
-- the pattern may end, in the order in which its alternatives are written, and with a failure where
-- there is none.
pub exec-compile :
    (t : FoldTables) (n : Node) (vm : Vm) (mode : Bool)
    → IsPlain n
    → IsUnfused n
    → compile_ast_to_bytecode t n false ≡ done vm.bc
    → length vm.bc < 2 ^ 32
    → (fuel : ℕ) × EndsWith (first (ends n vm.s 0)) (exec fuel mode vm)
exec-compile t n vm mode plain unfused compiled short =
    let whole : vm.bc ≡ (code n 0 ++ 0 ∷ []) ++ no_sections =
      cc (compiled, compile-code t n plain unfused) in
    exec-code n vm mode plain short
      (record { before = []; behind = no_sections; whole = whole; offset = refl })
