-- ===== src/Vm/Bounds/Handlers.antt =====
-- The matching and position handlers of core/src/vm_exec.c keep the cursor within the subject.
use libsnobol.Base.{
  ℕ, suc, ◌+◌, ◌-◌, ◌≤◌, ◌<◌, ◌&&◌, arith, ltb, leb, ◌==◌, if◌then◌else◌, length, Option-cases,
  Bool-cases, inl, inr,
}
use libsnobol.Vm.Bounds.Landings.{any_step-Lands, notany_step-Lands, span_step-Lands, break_step-le}
use libsnobol.Vm.Bounds.Steps.{
  IsInSubject, EndsInSubject, moved, push_choice-IsInSubject, ends-backtrack,
  ends-backtrack_and_leave, ends-running, ends-outside, ends-if, within-Lands, ends-move,
}
use libsnobol.Vm.Bounds.Walks.{
  utf8_peek_next_bounds, skip_codepoints-le, walk_back-le, walk_on-le, balance-le,
}
use libsnobol.Vm.Classes.{get_ranges, is_torn}
use libsnobol.Vm.Bytes.{Bytes, utf8_peek_next, read_u8, read_u16, read_u32}
use libsnobol.Vm.Cursor.{skip_codepoints, walk_back, walk_on}
use libsnobol.Vm.Handlers.Matching.{
  op_lit, op_any, op_notany, op_span, op_break, op_breakx, op_bal, op_len, same_bytes, find_class,
  break_step, break_width, starts_with_cp,
}
use libsnobol.Vm.Handlers.Position.{op_anchor, op_rpos, op_rtab, op_pos, op_tab}
use libsnobol.Vm.State.{Vm}

pub ends-op_lit : (vm : Vm) → IsInSubject vm → EndsInSubject (op_lit vm)
unfolding op_lit
ends-op_lit vm v =
    let (off, ip) = read_u32 vm.bc vm.ip in
    let (n, ip') = read_u32 vm.bc ip in
    let next = if off == ip' then ip' + n else ip' in
    let back = ends-backtrack (record vm { ip = next }) v in
    elim (Bool-cases (leb n (length vm.s - vm.pos))) [
      | inl fits ↦ rw fits (
          ends-if (ltb (length vm.bc) (off + n)) _ _ (ends-outside _ (record vm { ip = next }) v) (
            ends-if (same_bytes n vm.s vm.pos vm.bc off) _ _
              (ends-running (record vm { ip = next; pos = vm.pos + n })
                (moved _ v (ground (arith, v.cursor))))
              back))
      | inr over ↦ rw over back
    ]

pub ends-op_any : (vm : Vm) → IsInSubject vm → EndsInSubject (op_any vm)
unfolding op_any
ends-op_any vm v =
    let (set_id, ip) = read_u16 vm.bc vm.ip in
    ends-if (is_torn vm.bc (get_ranges vm.bc set_id)) _ _ (ends-outside _ (record vm { ip = ip }) v)
      (ends-move _ (record vm { ip = ip })
        (any_step-Lands (find_class vm.bc set_id) vm.bc vm.s vm.pos) v)

pub ends-op_notany : (vm : Vm) → IsInSubject vm → EndsInSubject (op_notany vm)
unfolding op_notany
ends-op_notany vm v =
    let (set_id, ip) = read_u16 vm.bc vm.ip in
    ends-if (is_torn vm.bc (get_ranges vm.bc set_id)) _ _ (ends-outside _ (record vm { ip = ip }) v)
      (ends-move _ (record vm { ip = ip })
        (notany_step-Lands (find_class vm.bc set_id) vm.bc vm.s vm.pos) v)

pub ends-op_span : (vm : Vm) → IsInSubject vm → EndsInSubject (op_span vm)
unfolding op_span
ends-op_span vm v =
    let (set_id, ip) = read_u16 vm.bc vm.ip in
    ends-if (is_torn vm.bc (get_ranges vm.bc set_id)) _ _ (ends-outside _ (record vm { ip = ip }) v)
      (ends-move _ (record vm { ip = ip })
        (span_step-Lands (find_class vm.bc set_id) vm.bc vm.s vm.pos) v)

pub ends-op_break : (vm : Vm) → IsInSubject vm → EndsInSubject (op_break vm)
unfolding op_break
ends-op_break vm v =
    let (set_id, ip) = read_u16 vm.bc vm.ip in
    ends-if (is_torn vm.bc (get_ranges vm.bc set_id)) _ _ (ends-outside _ (record vm { ip = ip }) v)
      (ends-running _
        (moved _ v (break_step-le (find_class vm.bc set_id) vm.bc vm.s vm.pos v.cursor)))

break_width-le : (s : Bytes) (p : ℕ) → p < length s → p + break_width s p ≤ length s
unfolding break_width
break_width-le s p h = elim (Option-cases (utf8_peek_next s p)) [
  | inl stop ↦ rw (stop, break_width) (omega arith)
  | inr (cb, go) ↦ ground (arith, go, utf8_peek_next_bounds s p cb.0 cb.1 go)
]

pub ends-op_breakx : (vm : Vm) → IsInSubject vm → EndsInSubject (op_breakx vm)
unfolding op_breakx
ends-op_breakx vm v =
    let (set_id, ip) = read_u16 vm.bc vm.ip in
    let p = break_step (find_class vm.bc set_id) vm.bc vm.s vm.pos in
    let w = record vm { ip = ip; pos = p } in
    let h : IsInSubject w =
      moved _ v (break_step-le (find_class vm.bc set_id) vm.bc vm.s vm.pos v.cursor) in
    ends-if (is_torn vm.bc (get_ranges vm.bc set_id)) _ _ (ends-outside _ (record vm { ip = ip }) v)
      (ends-running _ (elim (Bool-cases (ltb p (length vm.s))) [
        | inl more ↦ rw more (
            push_choice-IsInSubject (vm.ip - 1) (p + break_width vm.s p) w
              (break_width-le vm.s p (ground arith)) h)
        | inr done ↦ rw done h
      ]))

pub ends-op_bal : (vm : Vm) → IsInSubject vm → EndsInSubject (op_bal vm)
unfolding op_bal
ends-op_bal vm v =
    let (o, ip) = read_u32 vm.bc vm.ip in
    let (c, ip') = read_u32 vm.bc ip in
    let w = record vm { ip = ip' } in
    ends-if (starts_with_cp vm.s vm.pos o) _ _
      (ends-move _ w (within-Lands vm.s _ (balance-le (suc (length vm.s)) o c vm.s vm.pos 0)) v)
      (ends-backtrack_and_leave w v)

pub ends-op_len : (vm : Vm) → IsInSubject vm → EndsInSubject (op_len vm)
unfolding op_len
ends-op_len vm v =
    let (n, ip) = read_u32 vm.bc vm.ip in
    ends-move _ (record vm { ip = ip })
      (within-Lands vm.s (skip_codepoints n vm.s vm.pos)
        (λ q. skip_codepoints-le n vm.s vm.pos q v.cursor))
      v

pub ends-op_anchor : (vm : Vm) → IsInSubject vm → EndsInSubject (op_anchor vm)
unfolding op_anchor
ends-op_anchor vm v =
    let (type, ip) = read_u8 vm.bc vm.ip in
    let w = record vm { ip = ip } in
    ends-if (if type == 0 then vm.pos == 0 else vm.pos == length vm.s) _ _ (ends-running w v)
      (ends-backtrack w v)

pub ends-op_rpos : (vm : Vm) → IsInSubject vm → EndsInSubject (op_rpos vm)
unfolding op_rpos
ends-op_rpos vm v =
    let (n, ip) = read_u32 vm.bc vm.ip in
    let w = record vm { ip = ip } in
    ends-if (vm.pos == walk_back n vm.s (length vm.s)) _ _ (ends-running w v) (ends-backtrack w v)

pub ends-op_rtab : (vm : Vm) → IsInSubject vm → EndsInSubject (op_rtab vm)
unfolding op_rtab
ends-op_rtab vm v =
    let (n, ip) = read_u32 vm.bc vm.ip in
    let w = record vm { ip = ip } in
    ends-if (ltb (walk_back n vm.s (length vm.s)) vm.pos) _ _ (ends-backtrack w v)
      (ends-running _ (moved _ v (walk_back-le n vm.s (length vm.s))))

pub ends-op_pos : (vm : Vm) → IsInSubject vm → EndsInSubject (op_pos vm)
unfolding op_pos
ends-op_pos vm v =
    let (n, ip) = read_u32 vm.bc vm.ip in
    let w = record vm { ip = ip } in
    ends-if (vm.pos == walk_on n vm.s 0) _ _ (ends-running w v) (ends-backtrack w v)

pub ends-op_tab : (vm : Vm) → IsInSubject vm → EndsInSubject (op_tab vm)
unfolding op_tab
ends-op_tab vm v =
    let (n, ip) = read_u32 vm.bc vm.ip in
    let w = record vm { ip = ip } in
    let target = walk_on n vm.s 0 in
    ends-if (leb (length vm.s) target && ltb 0 n) _ _ (ends-backtrack w v) (
      ends-if (ltb target vm.pos) _ _ (ends-backtrack w v)
        (ends-running _ (moved target v (walk_on-le n vm.s 0 (omega arith)))))
