-- ===== src/Compiler/Fuse.antt =====
-- The pass that fuses a SPLIT between two single characters: `parse_arm_a`, `parse_arm_b`,
-- `get_cc_entry`, `fuse_add_union_cc` and `snobol_bc_fuse_split_any` of
-- core/src/compiler_analysis.c.
use libsnobol.Base.{
  ℕ, zero, suc, ◌+◌, ◌-◌, ◌*◌, ◌/◌, ◌%◌, Bool, false, not, ◌&&◌, ◌||◌, List, [], ◌∷◌, ◌++◌, Option,
  none, some, ltb, leb, ◌==◌, if◌then◌else◌, length, set,
}
use libsnobol.Compiler.CharClass.{CpRanges, CcEntry, normalize_ranges, add_entry}
use libsnobol.Vm.Bytes.{Bytes, at}

-- `fuse_read_u32` and `fuse_read_u16`
unfoldable pub fuse_read_u32 : Bytes → ℕ → ℕ
fuse_read_u32 bc off =
    ((at bc off * 256 + at bc (off + 1)) * 256 + at bc (off + 2)) * 256 + at bc (off + 3)

unfoldable pub fuse_read_u16 : Bytes → ℕ → ℕ
fuse_read_u16 bc off = at bc off * 256 + at bc (off + 1)

-- `get_cc_entry`
unfoldable pub get_cc_entry : ℕ → List CcEntry → Option CcEntry
get_cc_entry zero es = none
get_cc_entry (suc id) [] = none
get_cc_entry (suc zero) (e ∷ es) = some e
get_cc_entry (suc (suc id)) (e ∷ es) = get_cc_entry (suc id) es

-- `ArmInfo` of an arm that is eligible: a literal of one byte or a class
pub data ArmOp : Type 0 where
  lit_arm : (cp : ℕ) → ArmOp
  any_arm : (cc_id : ℕ) → ArmOp

-- the operation of an arm and the position behind it; `none` is the type 0
unfoldable pub arm_op : Bytes → ℕ → Option (ArmOp × ℕ)
unfolding fuse_read_u32 fuse_read_u16
arm_op bc a =
    if leb (length bc) a
    then none
    else if at bc a == 4
    then if leb (length bc) (a + 9)
      then none
      else if fuse_read_u32 bc (a + 5) == 1
      then some (lit_arm (at bc (a + 9)), a + 10)
      else none
    else if at bc a == 5
    then if ltb (length bc) (a + 3) then none else some (any_arm (fuse_read_u16 bc (a + 1)), a + 3)
    else none

-- `while (after_op < bc_len && bc[after_op] == OP_NOP) after_op++;`, with the bytes left as fuel
unfoldable pub skip_nops : ℕ → Bytes → ℕ → ℕ
skip_nops zero bc i = i
skip_nops (suc fuel) bc i =
    let rest = skip_nops fuel bc (i + 1) in if ltb i (length bc) && (at bc i == 41) then rest else i

-- an arm with its merge point
abbrev pub ArmInfo : Type 0
ArmInfo = Option (ArmOp × ℕ)

jump_after : Bytes → ArmOp → ℕ → ArmInfo
unfolding fuse_read_u32
jump_after bc o i =
    if ltb (length bc) (i + 5)
    then none
    else if at bc i == 2
    then some (o, fuse_read_u32 bc (i + 1))
    else none

unfoldable pub parse_arm_a : Bytes → ℕ → ArmInfo
unfolding arm_op skip_nops jump_after
parse_arm_a bc a = elim (arm_op bc a) [
  | none ↦ none
  | some (o, after) ↦ jump_after bc o (skip_nops (length bc) bc after)
]

unfoldable pub parse_arm_b : Bytes → ℕ → ArmInfo
unfolding arm_op skip_nops
parse_arm_b bc b = elim (arm_op bc b) [
  | none ↦ none
  | some (o, after) ↦ some (o, skip_nops (length bc) bc after)
]

-- the class of an arm, where it has one, and the ranges that it stands for
arm_entry : ArmOp → List CcEntry → Option CcEntry
unfolding get_cc_entry
arm_entry (lit_arm cp) es = none
arm_entry (any_arm cc_id) es = get_cc_entry cc_id es

arm_cp : ArmOp → ℕ
arm_cp (lit_arm cp) = cp
arm_cp (any_arm cc_id) = 0

entry_ranges : Option CcEntry → ℕ → CpRanges
entry_ranges none cp = (cp, cp) ∷ []
entry_ranges (some e) cp = e.ranges

entry_flag : Option CcEntry → Bool
entry_flag none = false
entry_flag (some e) = e.case_insensitive

-- `fuse_add_union_cc` for two arms
unfoldable pub fuse_add_union_cc : ArmOp → ArmOp → List CcEntry → ℕ × List CcEntry
unfolding arm_entry arm_cp entry_ranges entry_flag normalize_ranges add_entry
fuse_add_union_cc x y es =
    let ea = arm_entry x es in
    let eb = arm_entry y es in
    add_entry
      (record {
        ranges = normalize_ranges (entry_ranges ea (arm_cp x) ++ entry_ranges eb (arm_cp y));
        case_insensitive = entry_flag ea || entry_flag eb;
      })
      es

-- `for (i = pos + 3; i < merge; i++) bc[i] = OP_NOP;`
unfoldable pub fill_nops : ℕ → ℕ → Bytes → Bytes
fill_nops zero i bc = bc
fill_nops (suc n) i bc = fill_nops n (i + 1) (set bc i 41)

-- the rewrite at `pos`
rewrite_split : ℕ → ℕ → Bytes → ℕ × List CcEntry → Bytes × List CcEntry
unfolding fill_nops
rewrite_split pos merge bc (id, es) = if ltb 0xFFFF id then (bc, es) else (
  fill_nops (merge - (pos + 3)) (pos + 3)
      (set (set (set bc pos 5) (pos + 1) (id / 256 % 256)) (pos + 2) (id % 256)),
  es,
)

fuse_arms : ℕ → Bytes → List CcEntry → ArmInfo → ArmInfo → Bytes × List CcEntry
unfolding rewrite_split fuse_add_union_cc
fuse_arms pos bc es none y = (bc, es)
fuse_arms pos bc es (some x) none = (bc, es)
fuse_arms pos bc es (some (x, merge)) (some (y, merge')) =
    if merge == merge' then rewrite_split pos merge bc (fuse_add_union_cc x y es) else (bc, es)

-- the body of the scan at `pos`
unfoldable pub fuse_at : ℕ → Bytes × List CcEntry → Bytes × List CcEntry
unfolding fuse_read_u32 parse_arm_a parse_arm_b fuse_arms
fuse_at pos (bc, es) =
    let n = length bc in
    let a = fuse_read_u32 bc (pos + 1) in
    let b = fuse_read_u32 bc (pos + 5) in
    if not (at bc pos == 3)
    then (bc, es)
    else if ltb n (pos + 9)
    then (bc, es)
    else if leb a pos || leb b pos || leb n a || leb n b
    then (bc, es)
    else fuse_arms pos bc es (parse_arm_a bc a) (parse_arm_b bc b)

-- `while (pos > 0)`, from the last byte down
unfoldable pub fuse_down : ℕ → Bytes × List CcEntry → Bytes × List CcEntry
unfolding fuse_at
fuse_down zero r = r
fuse_down (suc pos) r = fuse_down pos (fuse_at pos r)

-- `snobol_bc_fuse_split_any`
unfoldable pub fuse_split_any : Bytes × List CcEntry → Bytes × List CcEntry
unfolding fuse_down
fuse_split_any (bc, es) = fuse_down (length bc) (bc, es)
