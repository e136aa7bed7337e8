-- ===== src/Tests/Positions.antt =====
-- Runs of the position opcodes and of the class bitmaps of core/src/vm_exec.c.
use libsnobol.Base.{
  zero, suc, ◌-◌, ◌≡◌, false, [], ◌∷◌, arith, min, ltb, leb, ◌&&◌, ◌==◌, if◌then◌else◌,
}
use libsnobol.Tests.Machine.{machine}
use libsnobol.Vm.Bytes.{Bytes}
use libsnobol.Vm.Classes.{Ranges, Bitmap, set_bits}
use libsnobol.Vm.Handlers.Outcome.{running, backtrack}
use libsnobol.Vm.Handlers.Position.{op_pos, op_rpos, op_tab, op_rtab}
use libsnobol.Vm.Positions.{IsAscii, operand, past_operand, op_pos-op_rpos, op_tab-op_rtab}
use libsnobol.Vm.State.{Vm}

-- the subject "ab", and an operand 2
abbrev two_of_ab : Vm
two_of_ab = machine (0 ∷ 0 ∷ 0 ∷ 2 ∷ []) (97 ∷ 98 ∷ [])

two_of_ab-IsAscii : IsAscii (97 ∷ 98 ∷ [])
two_of_ab-IsAscii zero = omega arith
two_of_ab-IsAscii (suc zero) = omega arith
two_of_ab-IsAscii (suc (suc i)) = omega arith

op_pos-op_rpos_example :
    (op_pos two_of_ab ≡ (
      if 0 == min (operand two_of_ab) 2
      then running (past_operand two_of_ab)
      else backtrack (past_operand two_of_ab)))
    × (op_rpos two_of_ab ≡ (
        if 0 == 2 - operand two_of_ab
        then running (past_operand two_of_ab)
        else backtrack (past_operand two_of_ab)))
op_pos-op_rpos_example = op_pos-op_rpos two_of_ab two_of_ab-IsAscii

op_tab-op_rtab_example :
    (op_tab two_of_ab ≡ (
      if leb 2 (operand two_of_ab) && ltb 0 (operand two_of_ab)
      then backtrack (past_operand two_of_ab)
      else if ltb (operand two_of_ab) 0
      then backtrack (past_operand two_of_ab)
      else running (record (past_operand two_of_ab) { pos = operand two_of_ab })))
    × (op_rtab two_of_ab ≡ (
        if ltb (2 - operand two_of_ab) 0
        then backtrack (past_operand two_of_ab)
        else running (record (past_operand two_of_ab) { pos = 2 - operand two_of_ab })))
op_tab-op_rtab_example = op_tab-op_rtab two_of_ab two_of_ab-IsAscii

-- the class of the letters "a" to "c"
abbrev letters : Bytes
letters = 0 ∷ 0 ∷ 0 ∷ 97 ∷ 0 ∷ 0 ∷ 0 ∷ 99 ∷ []

abbrev letter_ranges : Ranges
letter_ranges = record { ptr = 0; count = 1; case_insensitive = 0 }

abbrev letter_bitmap : Bitmap
letter_bitmap = set_bits 3 97 (λ _. false)
