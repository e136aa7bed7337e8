-- ===== src/Compiler/Emit.antt =====
-- The emitters of core/src/compiler_codegen.c and `emit_lit_bytes` of core/src/compiler_analysis.c: a
-- node's code is appended to the buffer, and the targets of SPLIT, JMP and REPEAT_INIT are patched
-- once they are known.
use libsnobol.Base.{
  ℕ, zero, suc, ◌+◌, ◌&&◌, Bool, true, false, List, [], ◌∷◌, Option, none, some, ltb, leb, ◌==◌,
  if◌then◌else◌, length,
}
use libsnobol.Compiler.Ast.{
  Node, Parts, AnchorType, anchor_start, anchor_end, minus_one, ast_node_nullable, absent, literal,
  concat, alt, repetition, span, break_, any, notany, arbno, capture, assign, len, eval,
  dynamic_eval, anchor, emit, label, goto, table_access, table_update, breakx, bal, fence, rem,
  abort, fail, succeed, rpos, rtab, pos, tab, reg_ref, nil, cons,
}
use libsnobol.Compiler.CharClass.{CcEntry, add_or_get_charclass}
use libsnobol.Compiler.Code.{
  Emission, done, refused, fault, ◌>>=◌, cb_emit_u8, cb_emit_u16, cb_emit_u32, cb_emit_bytes,
  patch_u32,
}
use libsnobol.Compiler.Folding.{FoldTables}
use libsnobol.Compiler.Labels.{
  LabelEntry, find_label, get_or_create_label, is_defined, define_label, refer_label,
}
use libsnobol.Vm.Bytes.{Bytes, utf8_peek_next}
use libsnobol.Vm.Exec.{Opcode}
use libsnobol.Vm.State.{max_loops}

-- The compiler's static state: `CodeBuf`, the class list, `next_loop_id`, `label_table_c` and
-- `compiler_case_insensitive`, with the tables that case folding reads.
pub record Compiler : Type 0 where
  pub buf : Bytes
  pub classes : List CcEntry
  pub next_loop_id : ℕ
  pub labels : List LabelEntry
  pub case_insensitive : Bool
  pub fold : FoldTables

abbrev pub Emitter : Type 0
Emitter = Compiler → Emission Compiler

-- the number of an opcode
unfoldable pub opcode_number : Opcode → ℕ
opcode_number Opcode.accept = 0
opcode_number Opcode.fail = 1
opcode_number Opcode.jmp = 2
opcode_number Opcode.split = 3
opcode_number Opcode.lit = 4
opcode_number Opcode.any = 5
opcode_number Opcode.notany = 6
opcode_number Opcode.span = 7
opcode_number Opcode.break_ = 8
opcode_number Opcode.cap_start = 9
opcode_number Opcode.cap_end = 10
opcode_number Opcode.assign = 11
opcode_number Opcode.len = 12
opcode_number Opcode.eval = 13
opcode_number Opcode.anchor = 14
opcode_number Opcode.repeat_init = 15
opcode_number Opcode.repeat_step = 16
opcode_number Opcode.emit_literal = 17
opcode_number Opcode.emit_capture = 18
opcode_number Opcode.label = 22
opcode_number Opcode.goto = 23
opcode_number Opcode.table_get = 25
opcode_number Opcode.table_set = 26
opcode_number Opcode.breakx = 31
opcode_number Opcode.bal = 32
opcode_number Opcode.fence = 33
opcode_number Opcode.rem = 34
opcode_number Opcode.rpos = 35
opcode_number Opcode.rtab = 36
opcode_number Opcode.pos_ = 37
opcode_number Opcode.tab = 38
opcode_number Opcode.abort = 39
opcode_number Opcode.succeed = 40
opcode_number _ = 41

-- `cb_emit_u8(c, OP_…)` and the emits of operands, on the compiler's state
unfoldable pub op : Opcode → Compiler → Compiler
unfolding opcode_number cb_emit_u8
op o c = record c { buf = cb_emit_u8 (opcode_number o) c.buf }

unfoldable pub u8 : ℕ → Compiler → Compiler
unfolding cb_emit_u8
u8 v c = record c { buf = cb_emit_u8 v c.buf }

unfoldable pub u16 : ℕ → Compiler → Compiler
unfolding cb_emit_u16
u16 v c = record c { buf = cb_emit_u16 v c.buf }

unfoldable pub u32 : ℕ → Compiler → Compiler
unfolding cb_emit_u32
u32 v c = record c { buf = cb_emit_u32 v c.buf }

unfoldable pub raw : Bytes → Compiler → Compiler
unfolding cb_emit_bytes
raw b c = record c { buf = cb_emit_bytes b c.buf }

unfoldable pub patch : ℕ → ℕ → Compiler → Compiler
unfolding patch_u32
patch where_ v c = record c { buf = patch_u32 where_ v c.buf }

-- `cb_pos`
abbrev pub cb_pos : Compiler → ℕ
cb_pos c = length c.buf

-- `emit_lit_bytes`
unfoldable pub emit_lit_bytes : Bytes → Compiler → Compiler
unfolding op u32 raw
emit_lit_bytes s c =
    let off_of_payload = cb_pos c + 1 + 4 + 4 in
    raw s (u32 (length s) (u32 off_of_payload (op Opcode.lit c)))

-- an opcode with the id of a class: `emit_span_c`, `emit_break_c`, `emit_notany_c`, `emit_breakx_c`
unfoldable pub emit_class : Opcode → Bytes → Compiler → Compiler
unfolding op u16 add_or_get_charclass
emit_class o chars c =
    let (setid, classes) = add_or_get_charclass c.fold c.case_insensitive chars c.classes in
    u16 setid (op o (record c { classes = classes }))

-- `emit_any_c`
unfoldable pub emit_any : Bytes → Compiler → Compiler
unfolding op u16 emit_class
emit_any chars c =
    if ltb 0 (length chars) then emit_class Opcode.any chars c else u16 0 (op Opcode.any c)

-- the bytes at `pos`, `n` of them
unfoldable pub slice : ℕ → Bytes → ℕ → Bytes
slice zero s i = []
slice (suc n) s i = (libsnobol.Vm.Bytes.at s i) ∷ slice n s (i + 1)

-- `emit_lit_case_insensitive_c`, with the bytes left as fuel
unfoldable pub emit_lit_case_insensitive : ℕ → Bytes → ℕ → Compiler → Compiler
unfolding emit_lit_bytes emit_class slice
emit_lit_case_insensitive zero s i c = c
emit_lit_case_insensitive (suc fuel) s i c =
    if leb (length s) i then c else elim (utf8_peek_next s i) [
      | none ↦ emit_lit_case_insensitive fuel s (i + 1) (emit_lit_bytes (slice 1 s i) c)
      | some (cp, cp_bytes) ↦
          emit_lit_case_insensitive fuel s (i + cp_bytes)
            (emit_class Opcode.any (slice cp_bytes s i) c)
    ]

unfoldable pub emit_literal : Bytes → Compiler → Compiler
unfolding emit_lit_bytes emit_lit_case_insensitive
emit_literal s c =
    if c.case_insensitive then emit_lit_case_insensitive (length s) s 0 c else emit_lit_bytes s c

-- `emit_assign_c` and `emit_eval_c`
unfoldable pub emit_assign : ℕ → ℕ → Compiler → Compiler
unfolding op u16 u8
emit_assign var reg c = u8 reg (u16 var (op Opcode.assign c))

unfoldable pub emit_eval : ℕ → ℕ → Compiler → Compiler
unfolding op u16 u8
emit_eval fn reg c = u8 reg (u16 fn (op Opcode.eval c))

-- `emit_len_c`, `emit_rpos_c`, `emit_rtab_c`, `emit_pos_c`, `emit_tab_c`
unfoldable pub emit_count : Opcode → ℕ → Compiler → Compiler
unfolding op u32
emit_count o n c = u32 n (op o c)

-- `emit_anchor_c`
unfoldable pub emit_anchor : AnchorType → Compiler → Compiler
unfolding op u8
emit_anchor anchor_start c = u8 0 (op Opcode.anchor c)
emit_anchor anchor_end c = u8 1 (op Opcode.anchor c)

-- `emit_emit_c`
unfoldable pub emit_emit : Option Bytes → ℕ → Compiler → Compiler
unfolding op u8 u32 raw
emit_emit (some text) reg c =
    let off_of_payload = cb_pos c + 1 + 4 + 4 in
    raw text (u32 (length text) (u32 off_of_payload (op Opcode.emit_literal c)))
emit_emit none reg c = if ltb reg 0x80000000 then u8 reg (op Opcode.emit_capture c) else c

-- `emit_bal_c`
unfoldable pub emit_bal : ℕ → ℕ → Compiler → Compiler
unfolding op u32
emit_bal open_cp close_cp c = u32 close_cp (u32 open_cp (op Opcode.bal c))

-- CAP_START and CAP_END around an emitter
unfoldable pub emit_capture : ℕ → Emitter → Emitter
unfolding op u8
emit_capture reg sub c =
    sub (u8 reg (op Opcode.cap_start c)) >>= λ c'. done (u8 reg (op Opcode.cap_end c'))

-- `emit_alt_c`, from the emitters of its branches
unfoldable pub emit_alt : Emitter → Emitter → Emitter
unfolding op u32 patch
emit_alt left right c =
    let where_a = cb_pos c + 1 in
    let where_b = where_a + 4 in
    let left_start = where_b + 4 in
    left (u32 0 (u32 0 (op Opcode.split c))) >>= λ l.
    let jmp_target_pos = cb_pos l + 1 in
    let right_start = jmp_target_pos + 4 in
    right (u32 0 (op Opcode.jmp l)) >>= λ r.
    done (patch jmp_target_pos (cb_pos r) (patch where_b right_start (patch where_a left_start r)))

-- the part of `emit_arbno_c` and `emit_repeat_c` from OP_REPEAT_INIT on
unfoldable pub emit_loop : ℕ → ℕ → ℕ → Emitter → Emitter
unfolding op u8 u32 patch
emit_loop loop_id low high sub c =
    let skip_target_off = cb_pos c + 1 + 1 + 4 + 4 in
    let body_start = skip_target_off + 4 in
    sub (u32 0 (u32 high (u32 low (u8 loop_id (op Opcode.repeat_init c))))) >>= λ s.
    let e = u32 body_start (u8 loop_id (op Opcode.repeat_step s)) in
    done (patch skip_target_off (cb_pos e) e)

-- `emit_arbno_c` behind its unwrapping, for a sub-pattern with the given answer of
-- `ast_node_nullable`, which decides about a diagnostic only
unfoldable pub emit_star : Option Bool → Emitter → Emitter
unfolding emit_loop
emit_star nullable sub c =
    let emitted =
      emit_loop c.next_loop_id 0 minus_one sub (record c { next_loop_id = c.next_loop_id + 1 }) in
    if leb max_loops c.next_loop_id
    then refused
    else elim nullable [ none ↦ fault | some _ ↦ emitted ]

-- `min == 0 && max == -1`
unfoldable pub is_star : ℕ → ℕ → Bool
is_star low high = (low == 0) && (high == minus_one)

-- `emit_repeat_c` of a pattern that is there, with the emitters for `emit_arbno_c` and the body
unfoldable pub emit_repeat : ℕ → ℕ → Emitter → Emitter → Emitter
unfolding emit_loop is_star
emit_repeat low high as_arbno sub c =
    let c' = record c { next_loop_id = c.next_loop_id + 1 } in
    let flattened = as_arbno c' in
    let bounded = emit_loop c.next_loop_id low high sub c' in
    if leb max_loops c.next_loop_id
    then refused
    else if is_star low high
    then flattened
    else bounded

-- AST_LABEL up to its target
unfoldable pub emit_label_at : Bytes → ℕ × List LabelEntry → Compiler → Compiler
unfolding op u16 define_label
emit_label_at name (idx, labels) c =
    let c' = u16 idx (op Opcode.label (record c { labels = labels })) in
    record c' { labels = define_label labels idx (cb_pos c') }

-- whether the name is a label that is defined already
unfoldable pub is_duplicate : Bytes → List LabelEntry → Bool
unfolding find_label is_defined
is_duplicate name labels = elim (find_label name labels) [
  | none ↦ false
  | some i ↦ is_defined labels i
]

unfoldable pub emit_label : Option Bytes → Emitter
unfolding is_duplicate emit_label_at get_or_create_label
emit_label none c = refused
emit_label (some name) c =
    if is_duplicate name c.labels
    then refused
    else done (emit_label_at name (get_or_create_label name c.labels) c)

-- AST_GOTO
unfoldable pub emit_goto : Option Bytes → Emitter
unfolding op u16 get_or_create_label refer_label
emit_goto none c = refused
emit_goto (some name) c =
    let (idx, labels) = get_or_create_label name c.labels in
    done (u16 idx (op Opcode.goto (record c { labels = refer_label labels idx })))

-- the end of `emit_table_access_c` and `emit_table_update_c`
unfoldable pub emit_table_op : Opcode → ℕ → ℕ → Bytes → Compiler → Compiler
unfolding op u8 u16 raw
emit_table_op o key_reg other_reg table c =
    raw table (u8 (length table) (u8 other_reg (u8 key_reg (u16 0xFFFF (op o c)))))

-- the register of the key, and whether its code stands between a capture of register 0
unfoldable pub key_register : Node → ℕ
key_register (reg_ref reg) = reg
key_register _ = 0

unfoldable pub emit_key : Node → Emitter → Emitter
unfolding emit_capture
emit_key (reg_ref reg) sub c = done c
emit_key _ sub c = emit_capture 0 sub c

-- What a node emits by itself (`emit_node_c`), as the argument of `emit_arbno_c`, behind the first
-- loop of `emit_arbno_c`, and in the loop of `emit_repeat_c` over nested repetitions: the loops that
-- unwrap a node go down the tree in these fields.
pub record Emitters : Type 0 where
  pub node : Emitter
  pub arbno : Emitter
  pub unwrapped : Emitter
  pub flattened : Emitter

-- a node that the loops leave as it is
unfoldable pub plain : Option Bool → Emitter → Emitters
unfolding emit_star
plain nullable e = record {
  node = e;
  arbno = emit_star nullable e;
  unwrapped = emit_star nullable e;
  flattened = emit_star nullable e;
}

-- a null pointer
unfoldable pub no_emitters : Emitters
no_emitters = record {
  node = λ c. refused;
  arbno = λ c. refused;
  unwrapped = λ c. refused;
  flattened = λ c. refused;
}

-- ARBNO: unwrapped by the first loop of `emit_arbno_c` only
unfoldable pub of_arbno : Emitters → Emitters
unfolding emit_star
of_arbno sub = record {
  node = sub.arbno;
  arbno = sub.arbno;
  unwrapped = emit_star (some true) sub.arbno;
  flattened = sub.arbno;
}

-- REPETITION: unwrapped by the other loops where it is REPEAT(0, -1)
unfoldable pub of_repetition : Bool → ℕ → ℕ → Emitters → Emitters
unfolding emit_repeat emit_star is_star
of_repetition is_absent low high sub =
    let e : Emitter =
      if is_absent then (λ c. refused) else emit_repeat low high sub.flattened sub.node in
    let star = emit_star (some (low == 0)) e in
    record {
      node = e;
      arbno = if is_star low high then sub.unwrapped else star;
      unwrapped = if is_star low high then sub.unwrapped else star;
      flattened = if is_star low high then sub.flattened else star;
    }

unfoldable pub is_absent : Node → Bool
is_absent absent = true
is_absent _ = false

-- the target of a label, which may be no_emitters
unfoldable pub emit_target : Bool → Emitter → Emitter
emit_target true e c = done c
emit_target false e c = e c

-- `emit_table_access_c` and `emit_table_update_c`
unfoldable pub emit_table_access : Bytes → Node → Emitter → Emitter
unfolding emit_key key_register emit_table_op
emit_table_access table key sub c =
    emit_key key sub c >>= λ c'. done (emit_table_op Opcode.table_get (key_register key) 0 table c')

unfoldable pub emit_table_update : Bytes → Node → Emitter → Emitter → Emitter
unfolding emit_key key_register emit_table_op emit_capture
emit_table_update table key sub value c = emit_key key sub c >>= λ c'.
    emit_capture 1 value c' >>= λ c''.
    done (emit_table_op Opcode.table_set (key_register key) 1 table c'')

-- `emit_node_c`, with the loop over the parts of a concatenation
unfoldable mutual
  unfolding emit_literal emit_class emit_any emit_assign emit_eval emit_count emit_anchor emit_emit
      emit_bal emit_capture emit_alt emit_label emit_goto emit_table_access emit_table_update op
      plain no_emitters of_arbno of_repetition is_absent emit_target

  pub emitters : Node → Emitters
  emitters absent = no_emitters
  emitters (literal text) =
      plain (ast_node_nullable (literal text)) (λ c. done (emit_literal text c))
  emitters (concat parts) = plain (ast_node_nullable (concat parts)) (emit_parts parts)
  emitters (alt left right) =
      plain (ast_node_nullable (alt left right))
        (emit_alt (emitters left).node (emitters right).node)
  emitters (repetition sub low high) = of_repetition (is_absent sub) low high (emitters sub)
  emitters (span chars) = plain (some false) (λ c. done (emit_class Opcode.span chars c))
  emitters (break_ chars) = plain (some false) (λ c. done (emit_class Opcode.break_ chars c))
  emitters (any chars) = plain (some false) (λ c. done (emit_any chars c))
  emitters (notany chars) = plain (some false) (λ c. done (emit_class Opcode.notany chars c))
  emitters (arbno sub) = of_arbno (emitters sub)
  emitters (capture reg sub) =
      plain (ast_node_nullable (capture reg sub)) (emit_capture reg (emitters sub).node)
  emitters (assign var reg) = plain (some false) (λ c. done (emit_assign var reg c))
  emitters (len n) = plain (some false) (λ c. done (emit_count Opcode.len n c))
  emitters (eval fn reg) = plain (some false) (λ c. done (emit_eval fn reg c))
  emitters (dynamic_eval expr) = plain (some false) (emitters expr).node
  emitters (anchor atype) = plain (some false) (λ c. done (emit_anchor atype c))
  emitters (emit text reg) =
      plain (ast_node_nullable (emit text reg)) (λ c. done (emit_emit text reg c))
  emitters (breakx chars) = plain (some true) (λ c. done (emit_class Opcode.breakx chars c))
  emitters (bal open_cp close_cp) = plain (some true) (λ c. done (emit_bal open_cp close_cp c))
  emitters fence = plain (some true) (λ c. done (op Opcode.fence c))
  emitters rem = plain (some true) (λ c. done (op Opcode.rem c))
  emitters (rpos n) = plain (some false) (λ c. done (emit_count Opcode.rpos n c))
  emitters (rtab n) = plain (some false) (λ c. done (emit_count Opcode.rtab n c))
  emitters (pos n) = plain (some false) (λ c. done (emit_count Opcode.pos_ n c))
  emitters (tab n) = plain (some false) (λ c. done (emit_count Opcode.tab n c))
  emitters abort = plain (some false) (λ c. done (op Opcode.abort c))
  emitters fail = plain (some true) (λ c. done (op Opcode.fail c))
  emitters succeed = plain (some true) (λ c. done (op Opcode.succeed c))
  emitters (label name target) =
      plain (some false)
        (λ c. emit_label name c >>= emit_target (is_absent target) (emitters target).node)
  emitters (goto name) = plain (some false) (emit_goto name)
  emitters (table_access table key) =
      plain (some false) (emit_table_access table key (emitters key).node)
  emitters (table_update table key value) =
      plain (some false) (emit_table_update table key (emitters key).node (emitters value).node)
  emitters (reg_ref reg) = plain (some false) (λ c. refused)

  pub emit_parts : Parts → Emitter
  emit_parts nil c = done c
  emit_parts (cons part parts) c = (emitters part).node c >>= emit_parts parts

unfoldable pub emit_node : Node → Emitter
unfolding emitters
emit_node node = (emitters node).node
