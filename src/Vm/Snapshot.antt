-- ===== src/Vm/Snapshot.antt =====
-- The snapshot mode of the choice stack of core/src/vm_choice.c, and OP_FENCE of core/src/vm_exec.c.
use libsnobol.Base.{ℕ, ◌<◌, ◌≡◌, refl, ap, ◌∙◌, false, ◌∷◌, arith, some}
use libsnobol.Vm.Arena.Stack
use libsnobol.Vm.Arena.Stack.{items, items-arena_alloc, arena_pop_last_lem}
use libsnobol.Vm.Backtrack.Thread.{pop_choice-some}
use libsnobol.Vm.Choices.{choice_record, push_choice, restore, drop_choice, pop_choice, copy_first}
use libsnobol.Vm.State.{Choice, snapshot, Vm}

copy_first-below : (n : ℕ) (f g : ℕ → ℕ) (i : ℕ) → i < n → copy_first n f g i ≡ f i
unfolding copy_first
copy_first-below n f g i h = ground (arith, h)

snapshot_of : ℕ → ℕ → Vm → Choice
snapshot_of ip pos vm =
    snapshot ip pos vm.var_count vm.max_cap_used vm.max_counter_used vm.regs.caps.cap_start
      vm.regs.caps.cap_end vm.regs.loops.counters vm.regs.loops.loop_last_pos

choice_record-snapshot :
    (ip pos : ℕ) (vm : Vm)
    → vm.use_compact_choice ≡ false
    → choice_record ip pos vm ≡ snapshot_of ip pos vm
unfolding choice_record snapshot_of
choice_record-snapshot ip pos vm mode = ground arith

pushed-snapshot :
    (ip pos : ℕ) (vm : Vm)
    → vm.use_compact_choice ≡ false
    → items (push_choice ip pos vm).arena ≡ snapshot_of ip pos vm ∷ items vm.arena
unfolding push_choice
pushed-snapshot ip pos vm mode =
    items-arena_alloc _ _ vm.arena
    ∙ ap (λ c. c ∷ items vm.arena) (choice_record-snapshot ip pos vm mode)

-- `w` continues at `ip` and `pos` with the captures and counters that were in use in `vm` and its count
-- of variables, and with the spans of the variables of `v`
pub record IsCopied (ip pos : ℕ) (vm v w : Vm) : Type 0 where
  pub ip_back : w.ip ≡ ip
  pub pos_back : w.pos ≡ pos
  pub used_back : (w.max_cap_used ≡ vm.max_cap_used) × (w.max_counter_used ≡ vm.max_counter_used)
  pub cap_start_back :
      (i : ℕ) → i < vm.max_cap_used → w.regs.caps.cap_start i ≡ vm.regs.caps.cap_start i
  pub cap_end_back : (i : ℕ) → i < vm.max_cap_used → w.regs.caps.cap_end i ≡ vm.regs.caps.cap_end i
  pub counters_back :
      (i : ℕ) → i < vm.max_counter_used → w.regs.loops.counters i ≡ vm.regs.loops.counters i
  pub last_pos_back :
      (i : ℕ)
      → i < vm.max_counter_used
      → w.regs.loops.loop_last_pos i ≡ vm.regs.loops.loop_last_pos i
  pub var_count_back : w.var_count ≡ vm.var_count
  pub variables_kept :
      (w.regs.caps.var_start ≡ v.regs.caps.var_start) × (w.regs.caps.var_end ≡ v.regs.caps.var_end)
  pub choices_back : items w.arena ≡ items vm.arena
  pub arena_valid : Stack.IsValid w.arena

-- In the snapshot mode: push a choice in `vm`, and pop it in any later state `v` of that mode with a
-- valid arena where it is on top. The pop succeeds, goes on at `ip` and `pos`, and gives back the
-- captures and the loop counters and positions that were in use at the push, how many of each were in
-- use, the number of variables and the choice stack. The spans of the variables stay as they are in `v`.
pub pop_choice-push_choice_snapshot :
    (ip pos : ℕ) (vm v : Vm)
    → vm.use_compact_choice ≡ false
    → v.use_compact_choice ≡ false
    → Stack.IsValid v.arena
    → items v.arena ≡ items (push_choice ip pos vm).arena
    → (w : Vm) × (pop_choice v ≡ some w) × IsCopied ip pos vm v w
unfolding snapshot_of restore drop_choice
pop_choice-push_choice_snapshot ip pos vm v mode later valid top =
    let e = top ∙ pushed-snapshot ip pos vm mode in
    let (_, _, left, ok) = arena_pop_last_lem v.arena valid e in
    (
      drop_choice (restore (snapshot_of ip pos vm) v),
      pop_choice-some v valid e,
      record {
        ip_back = refl;
        pos_back = refl;
        used_back = (refl, refl);
        cap_start_back = λ i h.
            copy_first-below vm.max_cap_used vm.regs.caps.cap_start v.regs.caps.cap_start i h;
        cap_end_back =
            λ i h. copy_first-below vm.max_cap_used vm.regs.caps.cap_end v.regs.caps.cap_end i h;
        counters_back = λ i h.
            copy_first-below vm.max_counter_used vm.regs.loops.counters v.regs.loops.counters i h;
        last_pos_back = λ i h.
            copy_first-below vm.max_counter_used vm.regs.loops.loop_last_pos
              v.regs.loops.loop_last_pos i h;
        var_count_back = refl;
        variables_kept = (refl, refl);
        choices_back = left;
        arena_valid = ok;
      },
    )
