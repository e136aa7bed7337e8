-- ===== src/Compiler/Correct/Instructions.antt =====
-- Each instruction of a plain pattern, by the handlers of core/src/vm_exec.c.
use libsnobol.Base.{
  ℕ, ◌+◌, ◌-◌, ◌%◌, ◌≡◌, refl, sym, subst, Bool, true, false, ◌&&◌, [], ◌∷◌, ◌++◌, arith, length,
  if◌then◌else◌, ltb, leb, ◌==◌, drop,
}
use libsnobol.Compiler.Code.{u16_bytes, u32_bytes}
use libsnobol.Compiler.Correct.Layout.{
  Sits, Sits-tail, Sits-right, Sits-bound, moved, read_u8-Sits, read_u16-Sits, read_u32-Sits,
}
use libsnobol.Compiler.Correct.Machine.{Keeps, Shows, push_choice-Keeps, backtracks}
use libsnobol.Compiler.Correct.Meaning.{one_if, tab_ends}
use libsnobol.Compiler.Correct.Plain.{
  Instr, accept, fail_, rem_, lit, split, jmp, cap_start, cap_end, assign_, anchor_, len_, rpos_,
  rtab_, pos_, tab_, instr_bytes,
}
use libsnobol.Compiler.Correct.Prefix.{same_bytes-has_prefix}
use libsnobol.Compiler.Correct.Registers.{
  Frame-refl, Frame-if, cap_start-Frame, cap_end-Frame, set_var-Frame,
}
use libsnobol.Compiler.Correct.Threads.{Threads, at_each, successors, Fits}
use libsnobol.Strings.{has_prefix}
use libsnobol.Vm.Bytes.{Bytes}
use libsnobol.Vm.Cursor.{skip_codepoints, walk_back, walk_on}
use libsnobol.Vm.Exec.{decode, dispatch, step}
use libsnobol.Vm.Handlers.Control.{op_fail, op_jmp, op_split, op_cap_start, op_cap_end, op_assign}
use libsnobol.Vm.Handlers.Matching.{op_lit, op_len}
use libsnobol.Vm.Handlers.Outcome.{Outcome, running, matched, backtrack}
use libsnobol.Vm.Handlers.Position.{op_anchor, op_rem, op_rpos, op_rtab, op_pos, op_tab}
use libsnobol.Vm.State.{Vm, max_caps, max_vars}
use libsnobol.Compiler.Correct.Dispatch.{
  step-Sits, goes_on, again, branches, branches_not, moves, framed,
}
use libsnobol.Vm.Choices.{push_choice}

-- The round on instruction `i` at the head of the machine's threads.
abbrev pub Refines : Instr → Type 0
Refines i =
    (ts : Threads) (vm : Vm)
    → Keeps vm.bc vm.s ts vm
    → Fits vm.ip i
    → Sits vm.bc vm.ip (instr_bytes vm.ip i)
    → Shows vm.bc vm.s (successors vm.s i (vm.ip + length (instr_bytes vm.ip i)) vm.pos ++ ts)
        (step vm)

fail-Refines : Refines fail_
unfolding instr_bytes successors decode dispatch op_fail
fail-Refines ts vm k fits h =
    rw (step-Sits vm 1 [] h) (backtracks (record vm { ip = vm.ip + 1 }) (again k))

rem-Refines : Refines rem_
unfolding instr_bytes successors decode dispatch op_rem
rem-Refines ts vm k fits h =
    rw (step-Sits vm 34 [] h)
      (goes_on (record vm { ip = vm.ip + 1; pos = length vm.s }) _ refl (again k))

jmp-Refines : (target : ℕ) → Refines (jmp target)
unfolding instr_bytes successors decode dispatch op_jmp
jmp-Refines target ts vm k fits h =
    rw (step-Sits vm 2 _ h, read_u32-Sits target [] fits (Sits-tail _ h))
      (goes_on (record vm { ip = target }) _ refl (again k))

split-Refines : (a b : ℕ) → Refines (split a b)
unfolding instr_bytes successors decode dispatch op_split push_choice
split-Refines a b ts vm k fits h =
    let operands = Sits-tail _ h in
    let second =
      moved (vm.ip + 1 + 4) (omega arith) (Sits-right (u32_bytes a) (u32_bytes b) operands) in
    rw
      (
        step-Sits vm 3 _ h,
        read_u32-Sits a (u32_bytes b) fits.0 operands,
        read_u32-Sits b [] fits.1 second,
      )
      (goes_on (record (push_choice b vm.pos (record vm { ip = vm.ip + 1 + 4 + 4 })) { ip = a }) _
        refl (again (push_choice-Keeps b vm.pos (record vm { ip = vm.ip + 1 + 4 + 4 }) (again k))))

len-Refines : (n : ℕ) → Refines (len_ n)
unfolding instr_bytes successors decode dispatch op_len
len-Refines n ts vm k fits h =
    rw (step-Sits vm 12 _ h, read_u32-Sits n [] fits (Sits-tail _ h))
      (moves (skip_codepoints n vm.s vm.pos) (record vm { ip = vm.ip + 1 + 4 }) _ (omega arith)
        (again k))

pos-Refines : (n : ℕ) → Refines (pos_ n)
unfolding instr_bytes successors decode dispatch op_pos
pos-Refines n ts vm k fits h =
    let v = record vm { ip = vm.ip + 1 + 4 } in
    rw (step-Sits vm 37 _ h, read_u32-Sits n [] fits (Sits-tail _ h))
      (branches (vm.pos == walk_on n vm.s 0) (running v) (backtrack v) _ _
        (goes_on v _ (omega arith) (again k)) (backtracks v (again k)))

rpos-Refines : (n : ℕ) → Refines (rpos_ n)
unfolding instr_bytes successors decode dispatch op_rpos
rpos-Refines n ts vm k fits h =
    let v = record vm { ip = vm.ip + 1 + 4 } in
    rw (step-Sits vm 35 _ h, read_u32-Sits n [] fits (Sits-tail _ h))
      (branches (vm.pos == walk_back n vm.s (length vm.s)) (running v) (backtrack v) _ _
        (goes_on v _ (omega arith) (again k)) (backtracks v (again k)))

rtab-Refines : (n : ℕ) → Refines (rtab_ n)
unfolding instr_bytes successors decode dispatch op_rtab
rtab-Refines n ts vm k fits h =
    let v = record vm { ip = vm.ip + 1 + 4 } in
    let target = walk_back n vm.s (length vm.s) in
    let on = record v { pos = target } in
    rw (step-Sits vm 36 _ h, read_u32-Sits n [] fits (Sits-tail _ h))
      (branches_not vm.pos target (running on) (backtrack v) _ _
        (goes_on on _ (omega arith) (again k)) (backtracks v (again k)))

tab_branches :
    {bc s : Bytes} {ts : Threads} (b : Bool) (p target next : ℕ) (x y : Outcome)
    → Shows bc s ((next, target) ∷ ts) x
    → Shows bc s ts y
    → Shows bc s
        (at_each next (if b then [] else one_if (leb p target) target) ++ ts)
        (if b then y else if ltb target p then y else x)
tab_branches true p target next x y hx hy = hy
tab_branches false p target next x y hx hy = branches_not p target x y next target hx hy

tab-Refines : (n : ℕ) → Refines (tab_ n)
unfolding instr_bytes successors decode dispatch op_tab tab_ends
tab-Refines n ts vm k fits h =
    let v = record vm { ip = vm.ip + 1 + 4 } in
    let target = walk_on n vm.s 0 in
    let on = record v { pos = target } in
    rw (step-Sits vm 38 _ h, read_u32-Sits n [] fits (Sits-tail _ h))
      (tab_branches (leb (length vm.s) target && ltb 0 n) vm.pos target _ (running on) (backtrack v)
        (goes_on on _ (omega arith) (again k)) (backtracks v (again k)))

anchor-Refines : (type : ℕ) → Refines (anchor_ type)
unfolding instr_bytes successors decode dispatch op_anchor
anchor-Refines type ts vm k fits h =
    let v = record vm { ip = vm.ip + 1 + 1 } in
    rw (step-Sits vm 14 _ h, read_u8-Sits (Sits-tail _ h))
      (branches (if type == 0 then vm.pos == 0 else vm.pos == length vm.s) (running v) (backtrack v)
        _ _ (goes_on v _ (omega arith) (again k)) (backtracks v (again k)))

cap_start-Refines : (reg : ℕ) → Refines (cap_start reg)
unfolding instr_bytes successors decode dispatch op_cap_start
cap_start-Refines reg ts vm k fits h =
    let v = record vm { ip = vm.ip + 1 + 1 } in
    let r = reg % 256 in
    rw (step-Sits vm 9 _ h, read_u8-Sits (Sits-tail _ h))
      (framed _ (Frame-if (ltb r max_caps) (cap_start-Frame r _ _ v) (Frame-refl v)) (omega arith)
        (again k))

cap_end-Refines : (reg : ℕ) → Refines (cap_end reg)
unfolding instr_bytes successors decode dispatch op_cap_end
cap_end-Refines reg ts vm k fits h =
    let v = record vm { ip = vm.ip + 1 + 1 } in
    let r = reg % 256 in
    let c = vm.regs.caps in
    let ended = cap_end-Frame r (c.cap_start r) (c.cap_end r) v in
    rw (step-Sits vm 10 _ h, read_u8-Sits (Sits-tail _ h))
      (framed _
        (Frame-if (ltb r max_caps) (Frame-if (ltb r max_vars) (set_var-Frame r r ended) ended)
          (Frame-refl v))
        (omega arith) (again k))

assign-Refines : (var reg : ℕ) → Refines (assign_ var reg)
unfolding instr_bytes successors decode dispatch op_assign
assign-Refines var reg ts vm k fits h =
    let v = record vm { ip = vm.ip + 1 + 2 + 1 } in
    let i = var % 65536 in
    let r = reg % 256 in
    let operands = Sits-tail _ h in
    let second =
      moved (vm.ip + 1 + 2) (omega arith) (Sits-right (u16_bytes var) (r ∷ []) operands) in
    rw (step-Sits vm 11 _ h, read_u16-Sits var (r ∷ []) operands, read_u8-Sits second)
      (framed _
        (Frame-if (ltb i max_vars && ltb r max_caps) (set_var-Frame i r (Frame-refl v))
          (Frame-refl v))
        (omega arith) (again k))

lit-Refines : (text : Bytes) → Refines (lit text)
unfolding instr_bytes successors decode dispatch op_lit
lit-Refines text ts vm k fits h =
    let n = length text in
    let off = vm.ip + 9 in
    let operands = Sits-tail _ h in
    let second =
      moved (vm.ip + 1 + 4) (omega arith)
        (Sits-right (u32_bytes off) (u32_bytes n ++ text) operands) in
    let payload = moved off (omega arith) (Sits-right (u32_bytes n) text second) in
    let inline : (off == vm.ip + 1 + 4 + 4) ≡ true = ground arith in
    let inside : (leb n (length vm.s - vm.pos) && ltb (length vm.bc) (off + n)) ≡ false =
      ground (arith, Sits-bound text payload) in
    let v = record vm { ip = vm.ip + 1 + 4 + 4 + n } in
    let on = record v { pos = vm.pos + n } in
    rw
      (
        step-Sits vm 4 _ h,
        read_u32-Sits off (u32_bytes n ++ text) fits.0 operands,
        read_u32-Sits n text fits.1 second,
        inline,
        inside,
        same_bytes-has_prefix text vm.s vm.bc off vm.pos payload,
      )
      (branches (has_prefix text (drop vm.pos vm.s)) (running on) (backtrack v) _ _
        (goes_on on _ (omega arith) (again k)) (backtracks v (again k)))

instr-Refines : (i : Instr) → Refines i
instr-Refines accept = λ ts vm k fits h. absurd fits
instr-Refines fail_ = fail-Refines
instr-Refines rem_ = rem-Refines
instr-Refines (lit text) = lit-Refines text
instr-Refines (split a b) = split-Refines a b
instr-Refines (jmp target) = jmp-Refines target
instr-Refines (cap_start reg) = cap_start-Refines reg
instr-Refines (cap_end reg) = cap_end-Refines reg
instr-Refines (assign_ var reg) = assign-Refines var reg
instr-Refines (anchor_ type) = anchor-Refines type
instr-Refines (len_ n) = len-Refines n
instr-Refines (rpos_ n) = rpos-Refines n
instr-Refines (rtab_ n) = rtab-Refines n
instr-Refines (pos_ n) = pos-Refines n
instr-Refines (tab_ n) = tab-Refines n

-- A round on an instruction that fits shows what the instruction makes of the first thread.
pub step-Shows :
    (i : Instr) {bc s : Bytes} {ts : Threads} (vm : Vm)
    → Keeps bc s ts vm
    → Fits vm.ip i
    → Sits bc vm.ip (instr_bytes vm.ip i)
    → Shows bc s (successors s i (vm.ip + length (instr_bytes vm.ip i)) vm.pos ++ ts) (step vm)
step-Shows i {bc} {s} {ts} vm k fits h =
    let e = k.subject_is in
    let f = k.code_is in
    let at_own : Shows vm.bc vm.s _ (step vm) =
      instr-Refines i ts vm
        (record { code_is = refl; subject_is = refl; valid = k.valid; waiting = k.waiting }) fits
        (subst (λ b. Sits b vm.ip (instr_bytes vm.ip i)) (sym f) h) in
    subst
      (λ b.
        Shows b s (successors s i (vm.ip + length (instr_bytes vm.ip i)) vm.pos ++ ts) (step vm))
      f
      (subst
        (λ t.
          Shows vm.bc t (successors t i (vm.ip + length (instr_bytes vm.ip i)) vm.pos ++ ts)
            (step vm))
        e at_own)

-- ACCEPT ends the run.
pub step-accept :
    {bc : Bytes} (vm : Vm)
    → vm.bc ≡ bc
    → Sits bc vm.ip (0 ∷ [])
    → step vm ≡ matched (record vm { ip = vm.ip + 1 })
unfolding decode dispatch
step-accept vm e h = step-Sits vm 0 [] (subst (λ b. Sits b vm.ip (0 ∷ [])) (sym e) h)
