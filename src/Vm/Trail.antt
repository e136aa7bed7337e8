-- ===== src/Vm/Trail.antt =====
-- The undo trail: `vm_trail_*` of core/src/vm_capture.c. A reallocation is taken to succeed.
use libsnobol.Base.{ℕ, zero, suc, ◌*◌, List, [], ◌∷◌, ltb, leb, ◌==◌, if◌then◌else◌, length, update}
use libsnobol.Vm.State.{
  Captures, Loops, Registers, UndoKind, counter_dec, cap_write, wl_pop, var_write, UndoRecord,
  Trail, Vm, max_caps, max_vars, max_loops,
}

abbrev pub trail_top : Trail → ℕ
trail_top t = length t.records

-- `while (new_cap <= vm->trail_top) new_cap *= 2;`, with fuel
unfoldable pub double_past : ℕ → ℕ → ℕ → ℕ
double_past zero top cap = cap
double_past (suc fuel) top cap =
    let next = double_past fuel top (cap * 2) in if leb cap top then next else cap

-- `vm_trail_push`
unfoldable pub trail_push : UndoRecord → Trail → Trail
trail_push u t =
    let top = trail_top t in
    record {
      records = u ∷ t.records;
      cap =
          if leb t.cap top
          then double_past (suc top) top (if t.cap == 0 then 256 else t.cap * 2)
          else t.cap;
    }

-- `vm_trail_counter_inc`
unfoldable pub trail_counter_inc : ℕ → ℕ → ℕ → Vm → Vm
unfolding trail_push
trail_counter_inc loop_id prior_count prior_last_pos vm =
    if vm.use_compact_choice
    then record vm {
      trail =
          trail_push
            (record {
              kind = counter_dec;
              index = loop_id;
              sub = 0;
              prior_u = prior_count;
              prior_a = 0;
              prior_b = 0;
              prior_lp = prior_last_pos;
            })
            vm.trail;
    }
    else vm

-- `vm_trail_cap_write`
unfoldable pub trail_cap_write : ℕ → ℕ → ℕ → ℕ → Vm → Vm
unfolding trail_push
trail_cap_write cap sub prior_start prior_end vm =
    if vm.use_compact_choice
    then record vm {
      trail =
          trail_push
            (record {
              kind = cap_write;
              index = cap;
              sub = sub;
              prior_u = 0;
              prior_a = prior_start;
              prior_b = prior_end;
              prior_lp = 0;
            })
            vm.trail;
    }
    else vm

-- `vm_trail_var_write`
unfoldable pub trail_var_write : ℕ → ℕ → ℕ → Vm → Vm
unfolding trail_push
trail_var_write var prior_start prior_end vm =
    if vm.use_compact_choice
    then record vm {
      trail =
          trail_push
            (record {
              kind = var_write;
              index = var;
              sub = 0;
              prior_u = 0;
              prior_a = prior_start;
              prior_b = prior_end;
              prior_lp = 0;
            })
            vm.trail;
    }
    else vm

-- the body of the loop of `vm_trail_replay`, by the record's kind
unfoldable pub undo_cap : UndoRecord → Captures → Captures
undo_cap e c =
    if ltb e.index max_caps
    then if e.sub == 0
      then record c { cap_start = update c.cap_start e.index e.prior_a }
      else if e.sub == 1
      then record c { cap_end = update c.cap_end e.index e.prior_b }
      else record c {
        cap_start = update c.cap_start e.index e.prior_a;
        cap_end = update c.cap_end e.index e.prior_b;
      }
    else c

unfoldable pub undo_var : UndoRecord → Captures → Captures
undo_var e c =
    if ltb e.index max_vars
    then record c {
      var_start = update c.var_start e.index e.prior_a;
      var_end = update c.var_end e.index e.prior_b;
    }
    else c

unfoldable pub undo_counter : UndoRecord → Loops → Loops
undo_counter e l =
    if ltb e.index max_loops
    then record l {
      counters = update l.counters e.index e.prior_u;
      loop_last_pos = update l.loop_last_pos e.index e.prior_lp;
    }
    else l

unfoldable pub undo_by_kind : UndoKind → UndoRecord → Registers → Registers
unfolding undo_cap undo_var undo_counter
undo_by_kind counter_dec e r = record r { loops = undo_counter e r.loops }
undo_by_kind cap_write e r = record r { caps = undo_cap e r.caps }
undo_by_kind wl_pop e r = r
undo_by_kind var_write e r = record r { caps = undo_var e r.caps }

unfoldable pub undo : UndoRecord → Registers → Registers
unfolding undo_by_kind
undo e r = undo_by_kind e.kind e r

-- `for (i = trail_top; i > base; i--)`: the records past `base`, the last one first
unfoldable pub replay_records : List UndoRecord → ℕ → Registers → Registers
replay_records [] base r = r
replay_records (e ∷ es) base r =
    let rest = replay_records es base (undo e r) in if ltb base (suc (length es)) then rest else r

-- the records below `base`
unfoldable pub cut : List UndoRecord → ℕ → List UndoRecord
cut [] base = []
cut (e ∷ es) base = let rest = cut es base in if ltb base (suc (length es)) then rest else e ∷ es

-- `vm_trail_replay`; `trail_top = base`, with `base` at most `trail_top`
unfoldable pub trail_replay : ℕ → Vm → Vm
unfolding replay_records cut undo
trail_replay base vm = record vm {
  regs = replay_records vm.trail.records base vm.regs;
  trail = record { records = cut vm.trail.records base; cap = vm.trail.cap };
}
