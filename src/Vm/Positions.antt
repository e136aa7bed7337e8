-- ===== src/Vm/Positions.antt =====
-- The position opcodes of core/src/vm_exec.c on an ASCII subject, where a code point is a byte.
use libsnobol.Base.{
  ℕ, zero, suc, ◌+◌, ◌-◌, ◌≤◌, ◌<◌, ◌≡◌, refl, ap, ◌∙◌, true, false, ◌&&◌, arith, ltb, leb, ◌==◌,
  if◌then◌else◌, length, min, Bool-cases, inl, inr,
}
use libsnobol.Vm.Bytes.{Bytes, at, read_u32}
use libsnobol.Vm.Cursor.{is_continuation, on_over, walk_on, back_over, walk_back}
use libsnobol.Vm.Handlers.Outcome.{Outcome, running, backtrack}
use libsnobol.Vm.Handlers.Position.{op_pos, op_rpos, op_tab, op_rtab}
use libsnobol.Vm.State.{Vm}

abbrev pub IsAscii : Bytes → Type 0
IsAscii s = (i : ℕ) → at s i < 128

not_continuation : (c : ℕ) → c < 128 → is_continuation c ≡ false
not_continuation c h = ground (arith, h)

on_over-ascii : (fuel : ℕ) (s : Bytes) (t : ℕ) → IsAscii s → on_over fuel s t ≡ t
unfolding on_over
on_over-ascii zero s t a = refl
on_over-ascii (suc fuel) s t a = elim (Bool-cases (ltb t (length s))) [
  | inr end ↦ rw end refl
  | inl more ↦ rw (more, not_continuation (at s t) (a t)) refl
]

walk_on-ascii :
    (n : ℕ) (s : Bytes) (t : ℕ) → IsAscii s → t ≤ length s → walk_on n s t ≡ min (t + n) (length s)
unfolding walk_on
walk_on-ascii zero s t a h = omega (arith, h)
walk_on-ascii (suc n) s t a h = elim (Bool-cases (ltb t (length s))) [
  | inr end ↦ rw end (ground (arith, end, h))
  | inl more ↦
      rw (more, on_over-ascii (length s) s (t + 1) a)
        (walk_on-ascii n s (t + 1) a (ground (arith, more)) ∙ omega arith)
]

back_over-ascii : (s : Bytes) (t : ℕ) → IsAscii s → back_over s t ≡ t
unfolding back_over
back_over-ascii s zero a = refl
back_over-ascii s (suc t) a = rw (not_continuation (at s (suc t)) (a (suc t))) refl

walk_back-ascii : (n : ℕ) (s : Bytes) (t : ℕ) → IsAscii s → walk_back n s t ≡ t - n
unfolding walk_back
walk_back-ascii zero s t a = omega arith
walk_back-ascii (suc n) s zero a = omega arith
walk_back-ascii (suc n) s (suc t) a =
    rw (back_over-ascii s t a) (walk_back-ascii n s t a ∙ omega arith)

-- the operand of the instruction, and the state behind it
abbrev pub operand : Vm → ℕ
operand vm = (read_u32 vm.bc vm.ip).0

abbrev pub past_operand : Vm → Vm
past_operand vm = record vm { ip = (read_u32 vm.bc vm.ip).1 }

-- On an ASCII subject of length `len`, with operand `n`: POS succeeds at the smaller of `n` and `len`,
-- RPOS at `len - n`, or 0 for a larger `n`.
pub op_pos-op_rpos :
    (vm : Vm)
    → IsAscii vm.s
    → (op_pos vm ≡ (
        if vm.pos == min (operand vm) (length vm.s)
        then running (past_operand vm)
        else backtrack (past_operand vm)))
      × (op_rpos vm ≡ (
          if vm.pos == length vm.s - operand vm
          then running (past_operand vm)
          else backtrack (past_operand vm)))
unfolding op_pos op_rpos
op_pos-op_rpos vm a =
    let w = past_operand vm in
    let n = operand vm in
    (
      ap (λ t. if vm.pos == t then running w else backtrack w)
          (walk_on-ascii n vm.s 0 a (omega arith) ∙ omega arith),
      ap (λ t. if vm.pos == t then running w else backtrack w)
          (walk_back-ascii n vm.s (length vm.s) a),
    )

tab_move : Vm → ℕ → ℕ → Outcome
tab_move w n t =
    if leb (length w.s) t && ltb 0 n
    then backtrack w
    else if ltb t w.pos
    then backtrack w
    else running (record w { pos = t })

-- On an ASCII subject of length `len`, with operand `n`: TAB backtracks for an `n` above 0 that is not
-- below `len`, and for a cursor past `n`, and else moves to `n`. RTAB backtracks for a cursor past
-- `len - n`, and else moves there.
pub op_tab-op_rtab :
    (vm : Vm)
    → IsAscii vm.s
    → (op_tab vm ≡ (
        if leb (length vm.s) (operand vm) && ltb 0 (operand vm)
        then backtrack (past_operand vm)
        else if ltb (operand vm) vm.pos
        then backtrack (past_operand vm)
        else running (record (past_operand vm) { pos = operand vm })))
      × (op_rtab vm ≡ (
          if ltb (length vm.s - operand vm) vm.pos
          then backtrack (past_operand vm)
          else running (record (past_operand vm) { pos = length vm.s - operand vm })))
unfolding op_tab op_rtab tab_move
op_tab-op_rtab vm a =
    let w = past_operand vm in
    let n = operand vm in
    (
      ap (tab_move w n) (walk_on-ascii n vm.s 0 a (omega arith)) ∙ settled w n,
      ap (λ t. if ltb t vm.pos then backtrack w else running (record w { pos = t }))
          (walk_back-ascii n vm.s (length vm.s) a),
    )
  where
    settled : (w : Vm) (n : ℕ) → tab_move w n (min (0 + n) (length w.s)) ≡ tab_move w n n
    settled w n = elim (Bool-cases (leb (length w.s) n && ltb 0 n)) [
      | inr inside ↦
          let same : min (0 + n) (length w.s) ≡ n = ground (arith, inside) in ap (tab_move w n) same
      | inl past ↦
          let past' : (leb (length w.s) (min (0 + n) (length w.s)) && ltb 0 n) ≡ true =
            ground (arith, past) in
          rw (past, past') refl
    ]
