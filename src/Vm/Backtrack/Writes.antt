-- ===== src/Vm/Backtrack/Writes.antt =====
-- The logged writes of the capture, variable and loop registers (core/src/vm_exec.c with
-- `vm_trail_*` of core/src/vm_capture.c) keep the invariant of the thread.
use libsnobol.Base.{
  ℕ, ◌≡◌, refl, ap, sym, subst, ◌∙◌, Bool, true, List, ◌∷◌, arith, ltb, update, update-update,
}
use libsnobol.Vm.Arena.{Arena}
use libsnobol.Vm.Backtrack.Replay.{undo_caps, replay_caps-logged}
use libsnobol.Vm.Backtrack.Thread.{Thread, ThreadOf}
use libsnobol.Vm.Handlers.Control.{write_cap_start, write_cap_end, write_var, set_var}
use libsnobol.Vm.State.{
  Captures, UndoRecord, Choice, Vm, max_caps, max_vars, cap_write, var_write, counter_dec,
}
use libsnobol.Vm.Trail.{trail_cap_write, trail_var_write, trail_counter_inc, trail_push}

-- the records that the three `vm_trail_*` functions log
abbrev cap_record : ℕ → ℕ → ℕ → ℕ → UndoRecord
cap_record r sub a b = record {
  kind = cap_write;
  index = r;
  sub = sub;
  prior_u = 0;
  prior_a = a;
  prior_b = b;
  prior_lp = 0;
}

abbrev var_record : ℕ → ℕ → ℕ → UndoRecord
var_record r a b = record {
  kind = var_write;
  index = r;
  sub = 0;
  prior_u = 0;
  prior_a = a;
  prior_b = b;
  prior_lp = 0;
}

abbrev count_record : ℕ → ℕ → ℕ → UndoRecord
count_record id count last_pos = record {
  kind = counter_dec;
  index = id;
  sub = 0;
  prior_u = count;
  prior_a = 0;
  prior_b = 0;
  prior_lp = last_pos;
}

cap_write-compact :
    (r sub a b : ℕ) (vm : Vm)
    → vm.use_compact_choice ≡ true
    → trail_cap_write r sub a b vm
      ≡ record vm { trail = trail_push (cap_record r sub a b) vm.trail }
unfolding trail_cap_write
cap_write-compact r sub a b vm mode = ground arith

var_write-compact :
    (r a b : ℕ) (vm : Vm)
    → vm.use_compact_choice ≡ true
    → trail_var_write r a b vm ≡ record vm { trail = trail_push (var_record r a b) vm.trail }
unfolding trail_var_write
var_write-compact r a b vm mode = ground arith

counter_inc-compact :
    (id count last_pos : ℕ) (vm : Vm)
    → vm.use_compact_choice ≡ true
    → trail_counter_inc id count last_pos vm
      ≡ record vm { trail = trail_push (count_record id count last_pos) vm.trail }
unfolding trail_counter_inc
counter_inc-compact id count last_pos vm mode = ground arith

undo-cap_start :
    (c : Captures) (r v b : ℕ)
    → ltb r max_caps ≡ true
    → undo_caps (cap_record r 0 (c.cap_start r) b) (record c { cap_start = update c.cap_start r v })
      ≡ c
unfolding undo_caps
undo-cap_start c r v b h =
    rw h (ap (λ f. record c { cap_start = f }) (update-update c.cap_start r v))

undo-cap_end :
    (c : Captures) (r v a : ℕ)
    → ltb r max_caps ≡ true
    → undo_caps (cap_record r 1 a (c.cap_end r)) (record c { cap_end = update c.cap_end r v }) ≡ c
unfolding undo_caps
undo-cap_end c r v a h = rw h (ap (λ f. record c { cap_end = f }) (update-update c.cap_end r v))

undo-var :
    (c : Captures) (r v w : ℕ)
    → ltb r max_vars ≡ true
    → undo_caps
        (var_record r (c.var_start r) (c.var_end r))
        (record c { var_start = update c.var_start r v; var_end = update c.var_end r w })
      ≡ c
unfolding undo_caps
undo-var c r v w h = rw h λ i. record c {
  var_start = update-update c.var_start r v i;
  var_end = update-update c.var_end r w i;
}

module _ {base : ℕ} {below : List UndoRecord} {target : Captures} {keep : List Choice} where
  -- a write whose undo record is logged
  logged :
      {mode : Bool} {arena : Arena Choice} (e : UndoRecord) (trail : List UndoRecord)
      (c c' : Captures)
      → undo_caps e c' ≡ c
      → Thread base below target keep mode arena trail c
      → Thread base below target keep mode arena (e ∷ trail) c'
  logged e trail c c' u t =
      let (back, kept) = replay_caps-logged e trail base c c' t.deep u in
      record {
        compact_mode = t.compact_mode;
        valid = t.valid;
        newer = t.newer;
        stack = t.stack;
        bases = t.bases;
        deep = omega (arith, t.deep);
        rest = kept ∙ t.rest;
        undone = back ∙ t.undone;
      }

  pub write_cap_start-Thread :
      (r b : ℕ) (vm : Vm)
      → ltb r max_caps ≡ true
      → ThreadOf base below target keep vm
      → ThreadOf base below target keep
          (write_cap_start r (trail_cap_write r 0 (vm.regs.caps.cap_start r) b vm))
  unfolding write_cap_start trail_push
  write_cap_start-Thread r b vm h t =
      subst (λ v. ThreadOf base below target keep (write_cap_start r v))
        (sym (cap_write-compact r 0 _ b vm t.compact_mode))
        (logged _ vm.trail.records vm.regs.caps _ (undo-cap_start vm.regs.caps r vm.pos b h) t)

  pub write_cap_end-Thread :
      (r a : ℕ) (vm : Vm)
      → ltb r max_caps ≡ true
      → ThreadOf base below target keep vm
      → ThreadOf base below target keep
          (write_cap_end r (trail_cap_write r 1 a (vm.regs.caps.cap_end r) vm))
  unfolding write_cap_end trail_push
  write_cap_end-Thread r a vm h t =
      subst (λ v. ThreadOf base below target keep (write_cap_end r v))
        (sym (cap_write-compact r 1 a _ vm t.compact_mode))
        (logged _ vm.trail.records vm.regs.caps _ (undo-cap_end vm.regs.caps r vm.pos a h) t)

  pub set_var-Thread :
      (var r : ℕ) (vm : Vm)
      → ltb var max_vars ≡ true
      → ThreadOf base below target keep vm
      → ThreadOf base below target keep (set_var var r vm)
  unfolding set_var write_var trail_push
  set_var-Thread var r vm h t =
      let c = vm.regs.caps in
      subst (λ v. ThreadOf base below target keep (write_var var r v))
        (sym (var_write-compact var _ _ vm t.compact_mode))
        (logged _ vm.trail.records c _ (undo-var c var (c.cap_start r) (c.cap_end r) h) t)

  -- a logged change of the loop registers leaves the captures alone
  pub trail_counter_inc-Thread :
      (id count last_pos : ℕ) (vm : Vm)
      → ThreadOf base below target keep vm
      → ThreadOf base below target keep (trail_counter_inc id count last_pos vm)
  unfolding trail_push undo_caps
  trail_counter_inc-Thread id count last_pos vm t =
      subst (ThreadOf base below target keep)
        (sym (counter_inc-compact id count last_pos vm t.compact_mode))
        (logged (count_record id count last_pos) vm.trail.records vm.regs.caps _ refl t)
