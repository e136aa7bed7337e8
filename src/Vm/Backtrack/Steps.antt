-- ===== src/Vm/Backtrack/Steps.antt =====
-- Every handler of `vm_run` (core/src/vm_exec.c) that goes on above the kept choice records keeps the
-- invariant of the thread, and so does the dispatch loop.
use libsnobol.Base.{
  ℕ, ◌+◌, ◌-◌, ◌<◌, ◌^◌, ◌≡◌, refl, Bool, true, false, ◌&&◌, List, ◌∷◌, Option, none, some, ltb,
  leb, length, if◌then◌else◌,
}
use libsnobol.Vm.Backtrack.Thread.{ThreadOf, Within, push_choice-Thread, backtrack-Thread}
use libsnobol.Vm.Bytes.{read_u16, read_u32}
use libsnobol.Vm.Choices.{push_choice}
use libsnobol.Vm.Cursor.{walk_on}
use libsnobol.Vm.Handlers.Matching.{
  op_lit, op_any, op_notany, op_span, op_break, op_breakx, op_bal, op_len, move, break_step,
  find_class, break_width,
}
use libsnobol.Vm.Handlers.Outcome.{
  Outcome, running, matched, failed, outside, Exit, backtrack, backtrack_and_leave, leave,
}
use libsnobol.Vm.Handlers.Position.{op_anchor, op_rpos, op_rtab, op_pos, op_tab}
use libsnobol.Vm.State.{Captures, UndoRecord, Choice, Vm}

-- The record that the run stays above, and what its pop is to restore.
pub record Anchor : Type 0 where
  pub base : ℕ
  pub below : List UndoRecord
  pub target : Captures
  pub first : Choice
  pub keep : List Choice

module _ (k : Anchor) where
  -- the invariant of the thread
  abbrev pub Held : Vm → Type 0
  Held = ThreadOf k.base k.below k.target (k.first ∷ k.keep)

  -- the invariant after a handler that goes on within the bounds
  unfoldable pub Keeps : Outcome → Type 0
  Keeps (running vm) = Within (k.first ∷ k.keep) vm → Held vm
  Keeps (matched vm) = Unit {0}
  Keeps (failed vm) = Unit {0}
  Keeps (outside op vm) = Unit {0}

  pub backtrack-Keeps : (vm : Vm) → Held vm → Keeps (backtrack vm)
  unfolding Keeps
  backtrack-Keeps vm t = go (backtrack vm) refl
    where
      go : (o : Outcome) → backtrack vm ≡ o → Keeps o
      go (running v) e = λ w. backtrack-Thread k.first k.keep vm e w t
      go (matched v) e = tt
      go (failed v) e = tt
      go (outside op v) e = tt

  pub branch-Keeps : (b : Bool) (x y : Outcome) → Keeps x → Keeps y → Keeps (if b then x else y)
  branch-Keeps true x y p q = p
  branch-Keeps false x y p q = q

  pub running-Keeps : (vm : Vm) → Held vm → Keeps (running vm)
  unfolding Keeps
  running-Keeps vm t w = t

  pub pushed-Keeps : (vm : Vm) → (length vm.trail.records < 2 ^ 32 → Held vm) → Keeps (running vm)
  unfolding Keeps
  pushed-Keeps vm f w = f w.short

  pub push-Keeps : (ip pos : ℕ) (vm : Vm) → Held vm → Keeps (running (push_choice ip pos vm))
  unfolding push_choice
  push-Keeps ip pos vm t = pushed-Keeps _ (λ h. push_choice-Thread ip pos vm h t)

  pub failed-Keeps : (vm : Vm) → Keeps (failed vm)
  unfolding Keeps
  failed-Keeps vm = tt

  pub matched-Keeps : (vm : Vm) → Keeps (matched vm)
  unfolding Keeps
  matched-Keeps vm = tt

  pub outside-Keeps : (op : Exit) (vm : Vm) → Keeps (outside op vm)
  unfolding Keeps
  outside-Keeps op vm = tt

  pub running_if-Keeps :
      (b : Bool) (x y : Vm)
      → Keeps (running x)
      → Keeps (running y)
      → Keeps (running (if b then x else y))
  running_if-Keeps true x y p q = p
  running_if-Keeps false x y p q = q

  pub move-Keeps : (p : Option ℕ) (vm : Vm) → Held vm → Keeps (move p vm)
  unfolding move
  move-Keeps none vm t = backtrack-Keeps vm t
  move-Keeps (some p) vm t = running-Keeps _ t

  pub leave-Keeps : (o : Option Vm) (vm : Vm) → Keeps (leave o vm)
  unfolding leave
  leave-Keeps none vm = failed-Keeps _
  leave-Keeps (some v) vm = failed-Keeps _

  pub op_lit-Keeps : (vm : Vm) → Held vm → Keeps (op_lit vm)
  unfolding op_lit
  op_lit-Keeps vm t =
      branch-Keeps _ _ _ (outside-Keeps _ _)
        (branch-Keeps _ _ _ (running-Keeps _ t) (backtrack-Keeps _ t))

  pub op_any-Keeps : (vm : Vm) → Held vm → Keeps (op_any vm)
  unfolding op_any
  op_any-Keeps vm t = branch-Keeps _ _ _ (outside-Keeps _ _) (move-Keeps _ _ t)

  pub op_notany-Keeps : (vm : Vm) → Held vm → Keeps (op_notany vm)
  unfolding op_notany
  op_notany-Keeps vm t = branch-Keeps _ _ _ (outside-Keeps _ _) (move-Keeps _ _ t)

  pub op_span-Keeps : (vm : Vm) → Held vm → Keeps (op_span vm)
  unfolding op_span
  op_span-Keeps vm t = branch-Keeps _ _ _ (outside-Keeps _ _) (move-Keeps _ _ t)

  pub op_break-Keeps : (vm : Vm) → Held vm → Keeps (op_break vm)
  unfolding op_break
  op_break-Keeps vm t = branch-Keeps _ _ _ (outside-Keeps _ _) (running-Keeps _ t)

  pub op_breakx-Keeps : (vm : Vm) → Held vm → Keeps (op_breakx vm)
  unfolding op_breakx
  op_breakx-Keeps vm t =
      let (set_id, ip) = read_u16 vm.bc vm.ip in
      let p = break_step (find_class vm.bc set_id) vm.bc vm.s vm.pos in
      let moved = record vm { ip = ip; pos = p } in
      branch-Keeps _ _ _ (outside-Keeps _ _) (
        running_if-Keeps (ltb p (length vm.s)) _ _
          (push-Keeps (vm.ip - 1) (p + break_width vm.s p) moved t) (running-Keeps moved t))

  pub op_bal-Keeps : (vm : Vm) → Held vm → Keeps (op_bal vm)
  unfolding op_bal backtrack_and_leave
  op_bal-Keeps vm t = branch-Keeps _ _ _ (move-Keeps _ _ t) (leave-Keeps _ _)

  pub op_len-Keeps : (vm : Vm) → Held vm → Keeps (op_len vm)
  unfolding op_len
  op_len-Keeps vm t = move-Keeps _ _ t

  pub op_anchor-Keeps : (vm : Vm) → Held vm → Keeps (op_anchor vm)
  unfolding op_anchor
  op_anchor-Keeps vm t = branch-Keeps _ _ _ (running-Keeps _ t) (backtrack-Keeps _ t)

  pub op_rpos-Keeps : (vm : Vm) → Held vm → Keeps (op_rpos vm)
  unfolding op_rpos
  op_rpos-Keeps vm t = branch-Keeps _ _ _ (running-Keeps _ t) (backtrack-Keeps _ t)

  pub op_rtab-Keeps : (vm : Vm) → Held vm → Keeps (op_rtab vm)
  unfolding op_rtab
  op_rtab-Keeps vm t = branch-Keeps _ _ _ (backtrack-Keeps _ t) (running-Keeps _ t)

  pub op_pos-Keeps : (vm : Vm) → Held vm → Keeps (op_pos vm)
  unfolding op_pos
  op_pos-Keeps vm t = branch-Keeps _ _ _ (running-Keeps _ t) (backtrack-Keeps _ t)

  pub op_tab-Keeps : (vm : Vm) → Held vm → Keeps (op_tab vm)
  unfolding op_tab
  op_tab-Keeps vm t =
      let (n, ip) = read_u32 vm.bc vm.ip in
      let target' = walk_on n vm.s 0 in
      branch-Keeps (leb (length vm.s) target' && ltb 0 n) _ _ (backtrack-Keeps _ t)
        (branch-Keeps (ltb target' vm.pos) _ _ (backtrack-Keeps _ t) (running-Keeps _ t))
