-- ===== src/Vm/Handlers/Control.antt =====
-- Control flow and the capture and variable registers: OP_FAIL, OP_JMP, OP_SPLIT, OP_CAP_START,
-- OP_CAP_END, OP_ASSIGN, OP_LABEL, OP_GOTO, OP_GOTO_F, OP_FENCE and OP_ABORT of core/src/vm_exec.c,
-- with `vm_get_label_offset`.
use libsnobol.Base.{
  ℕ, ◌+◌, true, false, ◌&&◌, List, Option, none, some, ltb, leb, if◌then◌else◌, length, get_or,
  update,
}
use libsnobol.Vm.Arena.{arena_reset}
use libsnobol.Vm.Bytes.{read_u8, read_u16, read_u32}
use libsnobol.Vm.Choices.{push_choice}
use libsnobol.Vm.Handlers.Outcome.{Outcome, running, failed, backtrack}
use libsnobol.Vm.State.{Vm, max_caps, max_vars}
use libsnobol.Vm.Trail.{trail_cap_write, trail_var_write}

unfoldable pub op_fail : Vm → Outcome
op_fail vm = backtrack vm

unfoldable pub op_jmp : Vm → Outcome
op_jmp vm = let (target, _) = read_u32 vm.bc vm.ip in running (record vm { ip = target })

unfoldable pub op_split : Vm → Outcome
op_split vm =
    let (a, ip) = read_u32 vm.bc vm.ip in
    let (b, ip') = read_u32 vm.bc ip in
    running (record (push_choice b vm.pos (record vm { ip = ip' })) { ip = a })

-- `if (r >= vm->max_cap_used) vm->max_cap_used = r + 1;`
abbrev raise : ℕ → ℕ → ℕ
raise r used = if leb used r then r + 1 else used

unfoldable pub write_cap_start : ℕ → Vm → Vm
write_cap_start r vm = record vm {
  regs = record vm.regs {
    caps = record vm.regs.caps { cap_start = update vm.regs.caps.cap_start r vm.pos };
  };
  max_cap_used = raise r vm.max_cap_used;
}

unfoldable pub op_cap_start : Vm → Outcome
unfolding write_cap_start
op_cap_start vm =
    let (r, ip) = read_u8 vm.bc vm.ip in
    let v = record vm { ip = ip } in
    let c = vm.regs.caps in
    running (
      if ltb r max_caps
      then write_cap_start r (trail_cap_write r 0 (c.cap_start r) (c.cap_end r) v)
      else v)

unfoldable pub write_cap_end : ℕ → Vm → Vm
write_cap_end r vm = record vm {
  regs = record vm.regs {
    caps = record vm.regs.caps { cap_end = update vm.regs.caps.cap_end r vm.pos };
  };
  max_cap_used = raise r vm.max_cap_used;
}

-- the part of OP_CAP_END and OP_ASSIGN that fills variable `var` from register `r`
unfoldable pub write_var : ℕ → ℕ → Vm → Vm
write_var var r vm =
    let c = vm.regs.caps in
    record vm {
      regs = record vm.regs {
        caps = record c {
          var_start = update c.var_start var (c.cap_start r);
          var_end = update c.var_end var (c.cap_end r);
        };
      };
      var_count = raise var vm.var_count;
    }

unfoldable pub set_var : ℕ → ℕ → Vm → Vm
unfolding write_var trail_var_write
set_var var r vm =
    let c = vm.regs.caps in
    write_var var r (trail_var_write var (c.var_start var) (c.var_end var) vm)

unfoldable pub op_cap_end : Vm → Outcome
unfolding write_cap_end set_var
op_cap_end vm =
    let (r, ip) = read_u8 vm.bc vm.ip in
    let v = record vm { ip = ip } in
    let c = vm.regs.caps in
    running (
      if ltb r max_caps
      then (let w = write_cap_end r (trail_cap_write r 1 (c.cap_start r) (c.cap_end r) v) in
          if ltb r max_vars then set_var r r w else w)
      else v)

unfoldable pub op_assign : Vm → Outcome
unfolding set_var
op_assign vm =
    let (var, ip) = read_u16 vm.bc vm.ip in
    let (r, ip') = read_u8 vm.bc ip in
    let v = record vm { ip = ip' } in
    running (if ltb var max_vars && ltb r max_caps then set_var var r v else v)

unfoldable pub op_label : Vm → Outcome
op_label vm = let (_, ip) = read_u16 vm.bc vm.ip in running (record vm { ip = ip })

-- `vm_get_label_offset`; `none` is its `UINT32_MAX`
unfoldable pub label_offset : List ℕ → ℕ → Option ℕ
label_offset offsets label_id =
    if ltb label_id (length offsets) then some (get_or offsets label_id 0) else none

unfoldable pub goto_target : Option ℕ → Vm → Outcome
goto_target none vm = backtrack (record vm { in_goto_fail = true })
goto_target (some target) vm = running (record vm { ip = target })

unfoldable pub op_goto : Vm → Outcome
unfolding goto_target label_offset
op_goto vm =
    let (label_id, ip) = read_u16 vm.bc vm.ip in
    goto_target (label_offset vm.label_offsets label_id) (record vm { ip = ip })

unfoldable pub goto_f_target : Option ℕ → Vm → Outcome
goto_f_target none vm = backtrack vm
goto_f_target (some target) vm = running (record vm { ip = target; in_goto_fail = false })

unfoldable pub op_goto_f : Vm → Outcome
unfolding goto_f_target label_offset
op_goto_f vm =
    let (label_id, ip) = read_u16 vm.bc vm.ip in
    let v = record vm { ip = ip } in
    if vm.in_goto_fail then goto_f_target (label_offset vm.label_offsets label_id) v else running v

unfoldable pub op_fence : Vm → Outcome
op_fence vm = running (record vm { arena = arena_reset vm.arena; choices_top = 0 })

unfoldable pub op_abort : Vm → Outcome
op_abort vm =
    failed (record vm { abort_flag = true; arena = arena_reset vm.arena; choices_top = 0 })
