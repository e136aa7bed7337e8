-- ===== src/Vm/Backtrack/Restore.antt =====
-- What a choice point gives back: the run of `vm_run` (core/src/vm_exec.c) above a choice record, and
-- the pop of that record.
use libsnobol.Base.{
  ℕ, ◌+◌, ◌≤◌, ◌<◌, ◌^◌, ◌≡◌, refl, ap, subst, ◌∙◌, true, List, [], ◌∷◌, some, arith, length, leb,
}
use libsnobol.Vm.Arena.Stack
use libsnobol.Vm.Arena.Stack.{items, items-arena_alloc, arena_alloc-IsValid, arena_pop_last_lem}
use libsnobol.Vm.Backtrack.Control.{
  op_split-Keeps, op_cap_start-Keeps, op_cap_end-Keeps, op_assign-Keeps, op_goto-Keeps,
  op_goto_f-Keeps, op_fence-Keeps,
}
use libsnobol.Vm.Backtrack.Repeats.{op_repeat_init-Keeps, op_repeat_step-Keeps}
use libsnobol.Vm.Backtrack.Replay.{replay_caps-top, cut-top, replay_records-caps}
use libsnobol.Vm.Backtrack.Steps.{
  Anchor, Held, Keeps, running-Keeps, backtrack-Keeps, branch-Keeps, failed-Keeps, matched-Keeps,
  outside-Keeps, op_lit-Keeps, op_any-Keeps, op_notany-Keeps, op_span-Keeps, op_break-Keeps,
  op_breakx-Keeps, op_bal-Keeps, op_len-Keeps, op_anchor-Keeps, op_rpos-Keeps, op_rtab-Keeps,
  op_pos-Keeps, op_tab-Keeps,
}
use libsnobol.Vm.Backtrack.Thread.{Within, pop_choice-some, choice_record-compact}
use libsnobol.Vm.Bytes.{at}
use libsnobol.Vm.Choices.{push_choice, pop_choice, restore, drop_choice}
use libsnobol.Vm.Exec.{
  Opcode, accept, fail, jmp, split, lit, any, notany, span, break_, cap_start, cap_end, assign, len,
  anchor, repeat_init, repeat_step, label, goto, goto_f, breakx, bal, fence, rem, rpos, rtab, pos_,
  tab, abort, succeed, nop, decode, dispatch, step,
}
use libsnobol.Vm.Handlers.Control.{op_fail, op_jmp, op_label, op_abort}
use libsnobol.Vm.Handlers.Outcome.{running}
use libsnobol.Vm.Handlers.Position.{op_rem}
use libsnobol.Vm.State.{Choice, compact, Vm}
use libsnobol.Vm.Trail.{trail_replay}

module _ (k : Anchor) where
  dispatch-Keeps : (op : Opcode) (vm : Vm) → Held k vm → Keeps k (dispatch op vm)
  unfolding dispatch op_fail op_jmp op_label op_abort op_rem
  dispatch-Keeps accept vm t = matched-Keeps k vm
  dispatch-Keeps fail vm t = backtrack-Keeps k vm t
  dispatch-Keeps jmp vm t = running-Keeps k _ t
  dispatch-Keeps split vm t = op_split-Keeps k vm t
  dispatch-Keeps lit vm t = op_lit-Keeps k vm t
  dispatch-Keeps any vm t = op_any-Keeps k vm t
  dispatch-Keeps notany vm t = op_notany-Keeps k vm t
  dispatch-Keeps span vm t = op_span-Keeps k vm t
  dispatch-Keeps break_ vm t = op_break-Keeps k vm t
  dispatch-Keeps cap_start vm t = op_cap_start-Keeps k vm t
  dispatch-Keeps cap_end vm t = op_cap_end-Keeps k vm t
  dispatch-Keeps assign vm t = op_assign-Keeps k vm t
  dispatch-Keeps len vm t = op_len-Keeps k vm t
  dispatch-Keeps anchor vm t = op_anchor-Keeps k vm t
  dispatch-Keeps repeat_init vm t = op_repeat_init-Keeps k vm t
  dispatch-Keeps repeat_step vm t = op_repeat_step-Keeps k vm t
  dispatch-Keeps label vm t = running-Keeps k _ t
  dispatch-Keeps goto vm t = op_goto-Keeps k vm t
  dispatch-Keeps goto_f vm t = op_goto_f-Keeps k vm t
  dispatch-Keeps breakx vm t = op_breakx-Keeps k vm t
  dispatch-Keeps bal vm t = op_bal-Keeps k vm t
  dispatch-Keeps fence vm t = op_fence-Keeps k vm t
  dispatch-Keeps rem vm t = running-Keeps k _ t
  dispatch-Keeps rpos vm t = op_rpos-Keeps k vm t
  dispatch-Keeps rtab vm t = op_rtab-Keeps k vm t
  dispatch-Keeps pos_ vm t = op_pos-Keeps k vm t
  dispatch-Keeps tab vm t = op_tab-Keeps k vm t
  dispatch-Keeps abort vm t = failed-Keeps k _
  dispatch-Keeps succeed vm t = matched-Keeps k vm
  dispatch-Keeps nop vm t = running-Keeps k vm t
  dispatch-Keeps _ vm t = outside-Keeps k _ vm

  step-Keeps : (vm : Vm) → Held k vm → Keeps k (step vm)
  unfolding step
  step-Keeps vm t =
      branch-Keeps k (leb (length vm.bc) vm.ip) _ _ (backtrack-Keeps k vm t)
        (dispatch-Keeps (decode (at vm.bc vm.ip)) (record vm { ip = vm.ip + 1 }) t)

  step-Held :
      (vm : Vm) {vm' : Vm}
      → step vm ≡ running vm'
      → Within (k.first ∷ k.keep) vm'
      → Held k vm
      → Held k vm'
  unfolding Keeps
  step-Held vm {vm'} e w t =
      let f : Keeps k (running vm') = subst (Keeps k) e (step-Keeps vm t) in f w

-- The states that `vm_run` goes through from `vm` on, all of them with `keep` at the end of the choice
-- stack.
pub data RunsAbove (keep : List Choice) (vm : Vm) : Vm → Type 0 where
  here : RunsAbove keep vm vm
  next : {v w : Vm} → RunsAbove keep vm v → step v ≡ running w → Within keep w → RunsAbove keep vm w

RunsAbove-Held : (k : Anchor) {vm w : Vm} → RunsAbove (k.first ∷ k.keep) vm w → Held k vm → Held k w
RunsAbove-Held k here t = t
RunsAbove-Held k (next {v = v} r e within) t = step-Held k v e within (RunsAbove-Held k r t)

-- `w` continues at `ip` and `pos`, with the registers, the trail and the choice stack of `vm`
pub record IsRestored (ip pos : ℕ) (vm w : Vm) : Type 0 where
  pub ip_back : w.ip ≡ ip
  pub pos_back : w.pos ≡ pos
  pub caps_back : w.regs.caps ≡ vm.regs.caps
  pub var_count_back : w.var_count ≡ vm.var_count
  pub max_cap_used_back : w.max_cap_used ≡ vm.max_cap_used
  pub max_counter_used_back : w.max_counter_used ≡ vm.max_counter_used
  pub trail_back : w.trail.records ≡ vm.trail.records
  pub choices_back : items w.arena ≡ items vm.arena
  pub arena_valid : Stack.IsValid w.arena

anchor_of : ℕ → ℕ → Vm → Anchor
anchor_of ip pos vm = record {
  base = length vm.trail.records;
  below = vm.trail.records;
  target = vm.regs.caps;
  first = compact ip pos vm.var_count vm.max_cap_used vm.max_counter_used (length vm.trail.records);
  keep = items vm.arena;
}

pushed-items :
    (ip pos : ℕ) (vm : Vm)
    → vm.use_compact_choice ≡ true
    → length vm.trail.records < 2 ^ 32
    → items (push_choice ip pos vm).arena ≡ (anchor_of ip pos vm).first ∷ (anchor_of ip pos vm).keep
unfolding anchor_of push_choice
pushed-items ip pos vm mode short =
    items-arena_alloc _ _ vm.arena
    ∙ ap (λ c. c ∷ items vm.arena) (choice_record-compact ip pos vm mode short)

pushed-Held :
    (ip pos : ℕ) (vm : Vm)
    → vm.use_compact_choice ≡ true
    → length vm.trail.records < 2 ^ 32
    → Stack.IsValid vm.arena
    → Held (anchor_of ip pos vm) (push_choice ip pos vm)
unfolding anchor_of push_choice
pushed-Held ip pos vm mode short valid =
    let es = vm.trail.records in
    let top : length es ≤ length es = omega arith in
    record {
      compact_mode = mode;
      valid = arena_alloc-IsValid _ _ vm.arena valid;
      newer = [];
      stack = pushed-items ip pos vm mode short;
      bases = tt;
      deep = top;
      rest = cut-top es (length es) top;
      undone = replay_caps-top es (length es) vm.regs.caps top;
    }

popped-IsRestored :
    (ip pos : ℕ) (vm v : Vm)
    → Held (anchor_of ip pos vm) v
    → items v.arena ≡ (anchor_of ip pos vm).first ∷ items vm.arena
    → IsRestored ip pos vm (drop_choice (restore (anchor_of ip pos vm).first v))
unfolding anchor_of drop_choice restore trail_replay
popped-IsRestored ip pos vm v t e =
    let (_, _, left, ok) = arena_pop_last_lem v.arena t.valid e in
    let es = vm.trail.records in
    record {
      ip_back = refl;
      pos_back = refl;
      caps_back = replay_records-caps v.trail.records (length es) v.regs ∙ t.undone;
      var_count_back = refl;
      max_cap_used_back = refl;
      max_counter_used_back = refl;
      trail_back = t.rest;
      choices_back = left;
      arena_valid = ok;
    }

-- In the compact mode, on a valid arena and a trail that a `uint32_t` counts: push a choice for `ip`
-- and `pos`, let the machine run through any steps that leave the record on the stack, and pop it when
-- it is on top again. The pop succeeds and goes on at `ip` and `pos` with every capture and variable
-- register, the counts of used registers, the undo trail and the choice stack as they were at the push.
pub pop_choice-push_choice :
    (ip pos : ℕ) (vm : Vm) {v : Vm}
    → vm.use_compact_choice ≡ true
    → length vm.trail.records < 2 ^ 32
    → Stack.IsValid vm.arena
    → RunsAbove (items (push_choice ip pos vm).arena) (push_choice ip pos vm) v
    → items v.arena ≡ items (push_choice ip pos vm).arena
    → (w : Vm) × (pop_choice v ≡ some w) × IsRestored ip pos vm w
unfolding anchor_of
pop_choice-push_choice ip pos vm {v} mode short valid runs top =
    let k = anchor_of ip pos vm in
    let pushed = pushed-items ip pos vm mode short in
    let t =
      RunsAbove-Held k (subst (λ cs. RunsAbove cs (push_choice ip pos vm) v) pushed runs)
        (pushed-Held ip pos vm mode short valid) in
    (
      drop_choice (restore k.first v),
      pop_choice-some v t.valid (top ∙ pushed),
      popped-IsRestored ip pos vm v t (top ∙ pushed),
    )
