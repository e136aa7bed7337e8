-- ===== src/Compiler/Safety/Trees.antt =====
-- `emit_node_c` of core/src/compiler_codegen.c over every node type.
use libsnobol.Base.{
  ℕ, ◌+◌, ◌≡◌, subst, Bool, true, false, Option, none, some, arith, length, if◌then◌else◌,
  Bool-cases, inl, inr, leb, ◌==◌,
}
use libsnobol.Compiler.Ast.{
  Node, Parts, minus_one, ast_node_nullable, absent, literal, concat, alt, repetition, span, break_,
  any, notany, arbno, capture, assign, len, eval, dynamic_eval, anchor, emit, label, goto,
  table_access, table_update, breakx, bal, fence, rem, abort, fail, succeed, rpos, rtab, pos, tab,
  reg_ref, nil, cons,
}
use libsnobol.Compiler.Code.{Emission, done, refused, fault, ◌>>=◌}
use libsnobol.Compiler.Emit
use libsnobol.Compiler.Emit.{
  Compiler, Emitter, Emitters, emitters, emit_parts, emit_node, op, u8, u16, u32, patch,
}
use libsnobol.Compiler.Safety.Extends.{
  IsValid, Extends, Extends-trans, Extends-length, Sound, IsSound, Sound-if, Sound-patch,
}
use libsnobol.Compiler.Safety.Operands.{
  Sounds, op-Sounds, u8-Sounds, u32-Sounds, class-Sounds, any-Sounds, literal-Sounds, assign-Sounds,
  eval-Sounds, count-Sounds, anchor-Sounds, emit-Sounds, bal-Sounds, table_op-Sounds,
}
use libsnobol.Vm.Bytes.{Bytes}
use libsnobol.Vm.Exec.{Opcode}
use libsnobol.Vm.State.{max_loops}
use libsnobol.Compiler.Safety.Nodes.{started, with_loop, label-IsSound, goto-IsSound}

-- an emission from a state that continues `c`
Sound-lift : {c c' : Compiler} (o : Emission Compiler) → Sounds c c' → Sound c' o → Sound c o
Sound-lift (done c'') (x, v) (y, w) = (Extends-trans x y, w)
Sound-lift refused h s = tt
Sound-lift fault h s = tt

-- a sub-pattern's emission from a state that continues `c`
sub-Sound : {c c' : Compiler} (e : Emitter) → IsSound e → Sounds c c' → Sound c (e c')
sub-Sound {c} {c'} e s h = Sound-lift (e c') h (s c' h.1)

-- what follows an emission, told with the state where the whole began
bind_from :
    (c : Compiler) (m : Emission Compiler) (f : Emitter)
    → Sound c m
    → ((c' : Compiler) → Sounds c c' → Sound c (f c'))
    → Sound c (m >>= f)
bind_from c (done c') f s h = h c' s
bind_from c refused f s h = tt
bind_from c fault f s h = tt

capture-IsSound : (reg : ℕ) (sub : Emitter) → IsSound sub → IsSound (Emit.emit_capture reg sub)
unfolding Emit.emit_capture
capture-IsSound reg sub s c v =
    bind_from c (sub (u8 reg (op Opcode.cap_start c))) _
      (sub-Sound sub s (u8-Sounds reg (op-Sounds Opcode.cap_start (started c v))))
      (λ c' h. u8-Sounds reg (op-Sounds Opcode.cap_end h))

alt-IsSound :
    (left right : Emitter) → IsSound left → IsSound right → IsSound (Emit.emit_alt left right)
unfolding Emit.emit_alt
alt-IsSound left right sl sr c v =
    let c1 = u32 0 (u32 0 (op Opcode.split c)) in
    let h1 = u32-Sounds 0 (u32-Sounds 0 (op-Sounds Opcode.split (started c v))) in
    bind_from c (left c1) _ (sub-Sound left sl h1) (λ l hl.
      let h2 = u32-Sounds 0 (op-Sounds Opcode.jmp hl) in
      bind_from c (right (u32 0 (op Opcode.jmp l))) _ (sub-Sound right sr h2) (λ r hr.
        Sound-patch (length l.buf + 1) (length r.buf) (omega (arith, Extends-length hl.0)) (
          Sound-patch (length c.buf + 1 + 4) (length l.buf + 1 + 4) (omega arith)
            (Sound-patch (length c.buf + 1) (length c.buf + 1 + 4 + 4) (omega arith) hr))))

loop-IsSound :
    (id low high : ℕ) (sub : Emitter) → IsSound sub → IsSound (Emit.emit_loop id low high sub)
unfolding Emit.emit_loop
loop-IsSound id low high sub s c v =
    let h1 = u32-Sounds 0 (
      u32-Sounds high
        (u32-Sounds low (u8-Sounds id (op-Sounds Opcode.repeat_init (started c v))))) in
    bind_from c (sub (u32 0 (u32 high (u32 low (u8 id (op Opcode.repeat_init c)))))) _
      (sub-Sound sub s h1)
      (λ c' h. Sound-patch (length c.buf + 1 + 1 + 4 + 4) _ (omega arith) (
        u32-Sounds (length c.buf + 1 + 1 + 4 + 4 + 4)
          (u8-Sounds id (op-Sounds Opcode.repeat_step h))))

star-IsSound :
    (nullable : Option Bool) (sub : Emitter) → IsSound sub → IsSound (Emit.emit_star nullable sub)
unfolding Emit.emit_star
star-IsSound nullable sub s c v = elim (Bool-cases (leb max_loops c.next_loop_id)) [
  | inl full ↦ rw full tt
  | inr room ↦
      let next = with_loop (c.next_loop_id + 1) (ground arith) (started c v) in
      rw room (
        answered nullable _
          (Sound-lift _ next (loop-IsSound c.next_loop_id 0 minus_one sub s _ next.1)))
]
  where
    answered :
        (n : Option Bool) (o : Emission Compiler)
        → Sound c o
        → Sound c (elim n [ none ↦ fault | some _ ↦ o ])
    answered none o p = tt
    answered (some b) o p = p

repeat-IsSound :
    (low high : ℕ) (as_arbno sub : Emitter)
    → IsSound as_arbno
    → IsSound sub
    → IsSound (Emit.emit_repeat low high as_arbno sub)
unfolding Emit.emit_repeat
repeat-IsSound low high as_arbno sub sa s c v = elim (Bool-cases (leb max_loops c.next_loop_id)) [
  | inl full ↦ rw full tt
  | inr room ↦
      let next = with_loop (c.next_loop_id + 1) (ground arith) (started c v) in
      rw room (
        Sound-if (Emit.is_star low high) c _ _ (sub-Sound as_arbno sa next)
          (Sound-lift _ next (loop-IsSound c.next_loop_id low high sub s _ next.1)))
]

key-IsSound : (key : Node) (sub : Emitter) → IsSound sub → IsSound (Emit.emit_key key sub)
unfolding Emit.emit_key
key-IsSound (reg_ref reg) sub s c v = started c v
key-IsSound _ sub s c v = capture-IsSound 0 sub s c v

access-IsSound :
    (table : Bytes) (key : Node) (sub : Emitter)
    → IsSound sub
    → IsSound (Emit.emit_table_access table key sub)
unfolding Emit.emit_table_access
access-IsSound table key sub s c v =
    bind_from c (Emit.emit_key key sub c) _ (key-IsSound key sub s c v)
      (λ c' h. table_op-Sounds Opcode.table_get (Emit.key_register key) 0 table h)

update-IsSound :
    (table : Bytes) (key : Node) (sub value : Emitter)
    → IsSound sub
    → IsSound value
    → IsSound (Emit.emit_table_update table key sub value)
unfolding Emit.emit_table_update
update-IsSound table key sub value s sv c v =
    bind_from c (Emit.emit_key key sub c) _ (key-IsSound key sub s c v) (λ c' h.
      bind_from c (Emit.emit_capture 1 value c') _
        (sub-Sound (Emit.emit_capture 1 value) (capture-IsSound 1 value sv) h)
        (λ c'' h'. table_op-Sounds Opcode.table_set (Emit.key_register key) 1 table h'))

-- all four ways in which a node is emitted
record AllSound (e : Emitters) : Type 0 where
  node : IsSound e.node
  arbno : IsSound e.arbno
  unwrapped : IsSound e.unwrapped
  flattened : IsSound e.flattened

plain-AllSound : (n : Option Bool) (e : Emitter) → IsSound e → AllSound (Emit.plain n e)
unfolding Emit.plain
plain-AllSound n e s =
    let t = star-IsSound n e s in record { node = s; arbno = t; unwrapped = t; flattened = t }

of_arbno-AllSound : (e : Emitters) → AllSound e → AllSound (Emit.of_arbno e)
unfolding Emit.of_arbno
of_arbno-AllSound e s = record {
  node = s.arbno;
  arbno = s.arbno;
  unwrapped = star-IsSound (some true) e.arbno s.arbno;
  flattened = s.arbno;
}

IsSound-if : (b : Bool) (x y : Emitter) → IsSound x → IsSound y → IsSound (if b then x else y)
IsSound-if true x y p q = p
IsSound-if false x y p q = q

of_repetition-AllSound :
    (b : Bool) (low high : ℕ) (e : Emitters)
    → AllSound e
    → AllSound (Emit.of_repetition b low high e)
unfolding Emit.of_repetition
of_repetition-AllSound b low high e s =
    let body =
      IsSound-if b (λ c. refused) (Emit.emit_repeat low high e.flattened e.node) (λ c v. tt)
        (repeat-IsSound low high e.flattened e.node s.flattened s.node) in
    let star = star-IsSound (some (low == 0)) _ body in
    record {
      node = body;
      arbno = IsSound-if (Emit.is_star low high) e.unwrapped _ s.unwrapped star;
      unwrapped = IsSound-if (Emit.is_star low high) e.unwrapped _ s.unwrapped star;
      flattened = IsSound-if (Emit.is_star low high) e.flattened _ s.flattened star;
    }

target-IsSound : (b : Bool) (e : Emitter) → IsSound e → IsSound (Emit.emit_target b e)
unfolding Emit.emit_target
target-IsSound true e s c v = started c v
target-IsSound false e s c v = s c v

mutual
  unfolding emitters emit_parts Emit.no_emitters

  emitters-AllSound : (n : Node) → AllSound (emitters n)
  emitters-AllSound absent = record {
    node = λ c v. tt;
    arbno = λ c v. tt;
    unwrapped = λ c v. tt;
    flattened = λ c v. tt;
  }
  emitters-AllSound (literal text) =
      plain-AllSound (ast_node_nullable (literal text)) _ (λ c v. literal-Sounds text (started c v))
  emitters-AllSound (concat parts) =
      plain-AllSound (ast_node_nullable (concat parts)) _ (parts-IsSound parts)
  emitters-AllSound (alt left right) =
      plain-AllSound (ast_node_nullable (alt left right)) _
        (alt-IsSound _ _ (emitters-AllSound left).node (emitters-AllSound right).node)
  emitters-AllSound (repetition sub low high) =
      of_repetition-AllSound (Emit.is_absent sub) low high (emitters sub) (emitters-AllSound sub)
  emitters-AllSound (span chars) =
      plain-AllSound (some false) _ (λ c v. class-Sounds Opcode.span chars (started c v))
  emitters-AllSound (break_ chars) =
      plain-AllSound (some false) _ (λ c v. class-Sounds Opcode.break_ chars (started c v))
  emitters-AllSound (any chars) =
      plain-AllSound (some false) _ (λ c v. any-Sounds chars (started c v))
  emitters-AllSound (notany chars) =
      plain-AllSound (some false) _ (λ c v. class-Sounds Opcode.notany chars (started c v))
  emitters-AllSound (arbno sub) = of_arbno-AllSound (emitters sub) (emitters-AllSound sub)
  emitters-AllSound (capture reg sub) =
      plain-AllSound (ast_node_nullable (capture reg sub)) _
        (capture-IsSound reg _ (emitters-AllSound sub).node)
  emitters-AllSound (assign var reg) =
      plain-AllSound (some false) _ (λ c v. assign-Sounds var reg (started c v))
  emitters-AllSound (len n) =
      plain-AllSound (some false) _ (λ c v. count-Sounds Opcode.len n (started c v))
  emitters-AllSound (eval fn reg) =
      plain-AllSound (some false) _ (λ c v. eval-Sounds fn reg (started c v))
  emitters-AllSound (dynamic_eval expr) =
      plain-AllSound (some false) _ (emitters-AllSound expr).node
  emitters-AllSound (anchor atype) =
      plain-AllSound (some false) _ (λ c v. anchor-Sounds atype (started c v))
  emitters-AllSound (emit text reg) =
      plain-AllSound (ast_node_nullable (emit text reg)) _
        (λ c v. emit-Sounds text reg (started c v))
  emitters-AllSound (breakx chars) =
      plain-AllSound (some true) _ (λ c v. class-Sounds Opcode.breakx chars (started c v))
  emitters-AllSound (bal open_cp close_cp) =
      plain-AllSound (some true) _ (λ c v. bal-Sounds open_cp close_cp (started c v))
  emitters-AllSound fence =
      plain-AllSound (some true) _ (λ c v. op-Sounds Opcode.fence (started c v))
  emitters-AllSound rem = plain-AllSound (some true) _ (λ c v. op-Sounds Opcode.rem (started c v))
  emitters-AllSound (rpos n) =
      plain-AllSound (some false) _ (λ c v. count-Sounds Opcode.rpos n (started c v))
  emitters-AllSound (rtab n) =
      plain-AllSound (some false) _ (λ c v. count-Sounds Opcode.rtab n (started c v))
  emitters-AllSound (pos n) =
      plain-AllSound (some false) _ (λ c v. count-Sounds Opcode.pos_ n (started c v))
  emitters-AllSound (tab n) =
      plain-AllSound (some false) _ (λ c v. count-Sounds Opcode.tab n (started c v))
  emitters-AllSound abort =
      plain-AllSound (some false) _ (λ c v. op-Sounds Opcode.abort (started c v))
  emitters-AllSound fail = plain-AllSound (some true) _ (λ c v. op-Sounds Opcode.fail (started c v))
  emitters-AllSound succeed =
      plain-AllSound (some true) _ (λ c v. op-Sounds Opcode.succeed (started c v))
  emitters-AllSound (label name target) = plain-AllSound (some false) _ (λ c v.
      bind_from c (Emit.emit_label name c) _ (label-IsSound name c v) (λ c' h.
        sub-Sound _ (target-IsSound (Emit.is_absent target) _ (emitters-AllSound target).node) h))
  emitters-AllSound (goto name) = plain-AllSound (some false) _ (goto-IsSound name)
  emitters-AllSound (table_access table key) =
      plain-AllSound (some false) _ (access-IsSound table key _ (emitters-AllSound key).node)
  emitters-AllSound (table_update table key value) =
      plain-AllSound (some false) _
        (update-IsSound table key _ _ (emitters-AllSound key).node (emitters-AllSound value).node)
  emitters-AllSound (reg_ref reg) = plain-AllSound (some false) _ (λ c v. tt)

  parts-IsSound : (ps : Parts) → IsSound (emit_parts ps)
  parts-IsSound nil c v = started c v
  parts-IsSound (cons part parts) c v =
      bind_from c ((emitters part).node c) _ ((emitters-AllSound part).node c v)
        (λ c' h. sub-Sound (emit_parts parts) (parts-IsSound parts) h)

-- From a state with at most `MAX_LOOPS` loops in which each defined label stands within the code,
-- emitting any node, where it succeeds, only appends to the code and to the classes that are there
-- and keeps both bounds.
pub emit_node-IsValid :
    (n : Node) (c : Compiler) {c' : Compiler}
    → IsValid c
    → emit_node n c ≡ done c'
    → Extends c c' × IsValid c'
unfolding emit_node
emit_node-IsValid n c v e = subst (Sound c) e ((emitters-AllSound n).node c v)
