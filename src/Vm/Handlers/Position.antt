-- ===== src/Vm/Handlers/Position.antt =====
-- OP_ANCHOR, OP_REM, OP_RPOS, OP_RTAB, OP_POS and OP_TAB of core/src/vm_exec.c.
use libsnobol.Base.{◌&&◌, ltb, leb, ◌==◌, if◌then◌else◌, length}
use libsnobol.Vm.Bytes.{read_u8, read_u32}
use libsnobol.Vm.Cursor.{walk_back, walk_on}
use libsnobol.Vm.Handlers.Outcome.{Outcome, running, backtrack}
use libsnobol.Vm.State.{Vm}

unfoldable pub op_anchor : Vm → Outcome
op_anchor vm =
    let (type, ip) = read_u8 vm.bc vm.ip in
    let v = record vm { ip = ip } in
    let ok = if type == 0 then vm.pos == 0 else vm.pos == length vm.s in
    if ok then running v else backtrack v

unfoldable pub op_rem : Vm → Outcome
op_rem vm = running (record vm { pos = length vm.s })

unfoldable pub op_rpos : Vm → Outcome
op_rpos vm =
    let (n, ip) = read_u32 vm.bc vm.ip in
    let v = record vm { ip = ip } in
    if vm.pos == walk_back n vm.s (length vm.s) then running v else backtrack v

unfoldable pub op_rtab : Vm → Outcome
op_rtab vm =
    let (n, ip) = read_u32 vm.bc vm.ip in
    let target = walk_back n vm.s (length vm.s) in
    let v = record vm { ip = ip } in
    if ltb target vm.pos then backtrack v else running (record v { pos = target })

unfoldable pub op_pos : Vm → Outcome
op_pos vm =
    let (n, ip) = read_u32 vm.bc vm.ip in
    let v = record vm { ip = ip } in if vm.pos == walk_on n vm.s 0 then running v else backtrack v

unfoldable pub op_tab : Vm → Outcome
op_tab vm =
    let (n, ip) = read_u32 vm.bc vm.ip in
    let target = walk_on n vm.s 0 in
    let v = record vm { ip = ip } in
    if leb (length vm.s) target && ltb 0 n
    then backtrack v
    else if ltb target vm.pos
    then backtrack v
    else running (record v { pos = target })
