-- ===== src/Compiler/Correct/Patching.antt =====
-- The emitters of core/src/compiler_codegen.c against the code with final targets: what a plain node
-- appends, and the patched operands of SPLIT and JMP.
use libsnobol.Base.{
  ℕ, zero, suc, ◌+◌, ◌%◌, ◌≡◌, refl, ap, sym, ◌∙◌, false, [], ◌∷◌, ◌++◌, arith, length, set,
  length-append, if◌then◌else◌,
}
use mathlib.Core.List.{append_assoc, append-nil}
use libsnobol.Compiler.Ast.{
  Node, Parts, AnchorType, anchor_start, anchor_end, literal, concat, alt, capture, assign, len,
  dynamic_eval, anchor, rem, fail, rpos, rtab, pos, tab, nil, cons,
}
use libsnobol.Compiler.Code.{
  done, u32_bytes, patch_u32, cb_emit_u8, cb_emit_u16, cb_emit_u32, cb_emit_bytes,
}
use libsnobol.Compiler.Correct.Plain.{
  IsPlain, ArePlain, alt_code, capture_code, concat_code, code, code_parts, instr_bytes, Instr,
}
use libsnobol.Compiler.Emit.{
  Compiler, Emitter, emit_node, emit_parts, emitters, plain, emit_alt, emit_capture, emit_literal,
  emit_lit_bytes, emit_assign, emit_count, emit_anchor, op, u8, u16, u32, raw, patch, opcode_number,
  emit_lit_case_insensitive,
}
use libsnobol.Vm.Bytes.{Bytes}
use libsnobol.Vm.Exec.{Opcode}

set-behind : (a xs : Bytes) (k i v : ℕ) → k ≡ length a + i → set (a ++ xs) k v ≡ a ++ set xs i v
set-behind [] xs k i v e = ap (λ t. set xs t v) (omega (arith, e))
set-behind (x ∷ a) xs zero i v e = absurd (omega (arith, e))
set-behind (x ∷ a) xs (suc k) i v e = ap (λ t. x ∷ t) (set-behind a xs k i v (omega (arith, e)))

-- The patch of a placeholder behind `a` writes the operand there and nothing else.
patch_u32-behind :
    (a b : Bytes) (k v : ℕ)
    → k ≡ length a
    → patch_u32 k v (a ++ (u32_bytes 0 ++ b)) ≡ a ++ (u32_bytes v ++ b)
unfolding patch_u32
patch_u32-behind a b k v e =
    rw
      (
        set-behind a (u32_bytes 0 ++ b) k 0 _ (omega (arith, e)),
        set-behind a _ (k + 1) 1 _ (omega (arith, e)),
        set-behind a _ (k + 2) 2 _ (omega (arith, e)),
        set-behind a _ (k + 3) 3 _ (omega (arith, e)),
      )
      refl

-- the state with more code behind its buffer
abbrev pub grow : Compiler → Bytes → Compiler
grow c x = record c { buf = c.buf ++ x }

-- An emitter that always succeeds and appends the given code.
abbrev pub Emits : Emitter → (ℕ → Bytes) → Type 0
Emits e x = (c : Compiler) → c.case_insensitive ≡ false → e c ≡ done (grow c (x (length c.buf)))

length-snoc : (xs : Bytes) (b : ℕ) → length (xs ++ b ∷ []) ≡ length xs + 1
length-snoc xs b = omega (arith, length-append xs (b ∷ []))

-- a patch behind `a` and `m`
patch_u32-within :
    (a m b : Bytes) (k v : ℕ)
    → k ≡ length a + length m
    → patch_u32 k v (a ++ (m ++ (u32_bytes 0 ++ b))) ≡ a ++ (m ++ (u32_bytes v ++ b))
patch_u32-within a m b k v e =
    ap (patch_u32 k v) (sym (append_assoc a m (u32_bytes 0 ++ b)))
    ∙ patch_u32-behind (a ++ m) b k v (omega (arith, e, length-append a m))
    ∙ append_assoc a m (u32_bytes v ++ b)

-- the three patches of `emit_alt_c`
alt_patched :
    (b x y : Bytes) (ls rs e : ℕ) {wa wb wj : ℕ}
    → wa ≡ length b + 1
    → wb ≡ length b + 5
    → wj ≡ length b + 10 + length x
    → patch_u32 wj e (
        patch_u32 wb rs (
          patch_u32 wa ls
            (b ++ 3 ∷ (u32_bytes 0 ++ (u32_bytes 0 ++ (x ++ 2 ∷ (u32_bytes 0 ++ y)))))))
      ≡ b ++ ((3 ∷ u32_bytes ls ++ u32_bytes rs) ++ (x ++ ((2 ∷ u32_bytes e) ++ y)))
alt_patched b x y ls rs e {wa} {wb} {wj} ea eb ej =
    let two = x ++ 2 ∷ [] in
    let jump = λ (t : Bytes). append_assoc x (2 ∷ []) t in
    ap (λ t. patch_u32 wj e (patch_u32 wb rs t))
      (patch_u32-within b (3 ∷ []) (u32_bytes 0 ++ (x ++ 2 ∷ (u32_bytes 0 ++ y))) wa ls ea)
    ∙ ap (patch_u32 wj e)
        (patch_u32-within b (3 ∷ u32_bytes ls) (x ++ 2 ∷ (u32_bytes 0 ++ y)) wb rs eb)
    ∙ ap (λ t. patch_u32 wj e (b ++ ((3 ∷ u32_bytes ls ++ u32_bytes rs) ++ t)))
        (sym (jump (u32_bytes 0 ++ y)))
    ∙ patch_u32-within b ((3 ∷ u32_bytes ls ++ u32_bytes rs) ++ two) y wj e
        (omega (arith, ej, length-snoc x 2))
    ∙ ap (λ t. b ++ ((3 ∷ u32_bytes ls ++ u32_bytes rs) ++ t)) (jump (u32_bytes e ++ y))

-- the same with the positions that `emit_alt_c` reads off the buffer
alt_placed :
    (b : Bytes) (x y : ℕ → Bytes) (p1 p2 ls rs e : ℕ) {wa wb wj : ℕ}
    → wa ≡ length b + 1
    → wb ≡ length b + 5
    → wj ≡ length b + 10 + length (x p1)
    → p1 ≡ length b + 9
    → p2 ≡ p1 + length (x p1) + 5
    → ls ≡ p1
    → rs ≡ p2
    → e ≡ p2 + length (y p2)
    → patch_u32 wj e (
        patch_u32 wb rs (
          patch_u32 wa ls
            (b ++ 3 ∷ (u32_bytes 0 ++ (u32_bytes 0 ++ (x p1 ++ 2 ∷ (u32_bytes 0 ++ y p2)))))))
      ≡ b ++ alt_code x y (length b)
unfolding alt_code instr_bytes
alt_placed b x y p1 p2 ls rs e ea eb ej h1 h2 h3 h4 h5 =
    alt_patched b (x p1) (y p2) ls rs e ea eb ej ∙ rw (h5, h4, h3, h2, h1) refl

emit_alt-Emits :
    (left right : Emitter) (x y : ℕ → Bytes)
    → Emits left x
    → Emits right y
    → Emits (emit_alt left right) (alt_code x y)
unfolding emit_alt op u32 patch cb_emit_u8 cb_emit_u32 opcode_number
emit_alt-Emits left right x y hl hr c ci =
    let b = c.buf in
    let c1 = u32 0 (u32 0 (op Opcode.split c)) in
    let l1 : length c1.buf ≡ length b + 9 = omega (
      arith,
      length-append b (3 ∷ []),
      length-append (b ++ 3 ∷ []) (u32_bytes 0),
      length-append ((b ++ 3 ∷ []) ++ u32_bytes 0) (u32_bytes 0),
    ) in
    let lx = grow c1 (x (length c1.buf)) in
    let l2 : length lx.buf ≡ length c1.buf + length (x (length c1.buf)) = length-append c1.buf _ in
    let c2 = u32 0 (op Opcode.jmp lx) in
    let l3 : length c2.buf ≡ length lx.buf + 5 =
      omega
        (arith, length-append lx.buf (2 ∷ []), length-append (lx.buf ++ 2 ∷ []) (u32_bytes 0)) in
    let x' = x (length c1.buf) in
    let y' = y (length c2.buf) in
    let l4 = length-append c2.buf y' in
    let emitted : c2.buf ++ y'
        ≡ b ++ 3 ∷ (u32_bytes 0 ++ (u32_bytes 0 ++ (x' ++ 2 ∷ (u32_bytes 0 ++ y')))) =
      simp append_assoc in
    rw (hl c1 ci, hr c2 ci)
      (ap (λ (t : Bytes). done (record c { buf = t }))
        (ap
            (λ t. patch_u32 (length lx.buf + 1) (length (c2.buf ++ y')) (
              patch_u32 (length b + 1 + 4) (length lx.buf + 1 + 4)
                (patch_u32 (length b + 1) (length b + 1 + 4 + 4) t)))
            emitted
          ∙ alt_placed b x y (length c1.buf) (length c2.buf) (length b + 1 + 4 + 4)
              (length lx.buf + 1 + 4) (length (c2.buf ++ y')) {wa = length b + 1}
              {wb = length b + 1 + 4} {wj = length lx.buf + 1} refl (omega arith)
              (omega (arith, l1, l2)) l1 (omega (arith, l2, l3)) (omega (arith, l1))
              (omega (arith, l3)) l4))

emit_capture-Emits :
    (reg : ℕ) (sub : Emitter) (x : ℕ → Bytes)
    → Emits sub x
    → Emits (emit_capture reg sub) (capture_code reg x)
unfolding emit_capture capture_code op u8 cb_emit_u8 opcode_number instr_bytes
emit_capture-Emits reg sub x h c ci =
    let c1 = u8 reg (op Opcode.cap_start c) in
    let l1 : length c1.buf ≡ length c.buf + 2 =
      omega (arith, length-snoc c.buf 9, length-snoc (c.buf ++ 9 ∷ []) (reg % 256)) in
    rw (h c1 ci) (ap (λ (t : Bytes). done (record c { buf = t })) (rw l1 (simp append_assoc)))

u32-Emits :
    (o : Opcode) (n : ℕ) (x : ℕ → Bytes)
    → ((p : ℕ) → x p ≡ (opcode_number o % 256) ∷ u32_bytes n)
    → Emits (λ c. done (emit_count o n c)) x
unfolding emit_count op u32 cb_emit_u8 cb_emit_u32
u32-Emits o n x h c ci =
    ap (λ (t : Bytes). done (record c { buf = t })) (rw (h (length c.buf)) (append_assoc c.buf _ _))

anchor-Emits : (atype : AnchorType) → Emits (λ c. done (emit_anchor atype c)) (code (anchor atype))
unfolding emit_anchor op u8 cb_emit_u8 opcode_number code
anchor-Emits anchor_start c ci =
    ap (λ (t : Bytes). done (record c { buf = t })) (append_assoc c.buf _ _)
anchor-Emits anchor_end c ci =
    ap (λ (t : Bytes). done (record c { buf = t })) (append_assoc c.buf _ _)

emit_literal_plain :
    (text : Bytes) (c : Compiler)
    → c.case_insensitive ≡ false
    → emit_literal text c ≡ emit_lit_bytes text c
unfolding emit_literal
emit_literal_plain text c ci =
    ap (λ t. if t then emit_lit_case_insensitive (length text) text 0 c else emit_lit_bytes text c)
      ci

literal_bytes :
    (text b : Bytes)
    → cb_emit_bytes text
        (cb_emit_u32 (length text) (cb_emit_u32 (length b + 1 + 4 + 4) (cb_emit_u8 4 b)))
      ≡ b ++ instr_bytes (length b) (Instr.lit text)
unfolding cb_emit_bytes cb_emit_u32 cb_emit_u8 instr_bytes
literal_bytes text b =
    let e : length b + 1 + 4 + 4 ≡ length b + 9 = omega arith in rw e (simp append_assoc)

assign_bytes :
    (var reg : ℕ) (b : Bytes)
    → cb_emit_u8 reg (cb_emit_u16 var (cb_emit_u8 11 b))
      ≡ b ++ instr_bytes (length b) (Instr.assign_ var reg)
unfolding cb_emit_u16 cb_emit_u8 instr_bytes
assign_bytes var reg b = simp append_assoc

mutual
  unfolding IsPlain ArePlain emit_node emitters plain code concat_code emit_literal emit_lit_bytes
      emit_assign op u8 u16 u32 raw cb_emit_u8 cb_emit_u16 cb_emit_u32 cb_emit_bytes opcode_number
      instr_bytes

  node_lem : (n : Node) → IsPlain n → Emits (emit_node n) (code n)
  node_lem (literal text) h c ci =
      ap done (emit_literal_plain text c ci)
      ∙ ap (λ (t : Bytes). done (record c { buf = t })) (literal_bytes text c.buf)
  node_lem (concat parts) h c ci = parts_lem parts h c ci
  node_lem (alt left right) h c ci =
      emit_alt-Emits (emit_node left) (emit_node right) (code left) (code right) (node_lem left h.0)
        (node_lem right h.1) c ci
  node_lem (capture reg sub) h c ci =
      emit_capture-Emits reg (emit_node sub) (code sub) (node_lem sub h) c ci
  node_lem (assign var reg) h c ci =
      ap (λ (t : Bytes). done (record c { buf = t })) (assign_bytes var reg c.buf)
  node_lem (len n) h c ci = u32-Emits Opcode.len n _ (λ p. refl) c ci
  node_lem (dynamic_eval expr) h c ci = node_lem expr h c ci
  node_lem (anchor atype) h c ci = anchor-Emits atype c ci
  node_lem rem h c ci = refl
  node_lem fail h c ci = refl
  node_lem (rpos n) h c ci = u32-Emits Opcode.rpos n _ (λ p. refl) c ci
  node_lem (rtab n) h c ci = u32-Emits Opcode.rtab n _ (λ p. refl) c ci
  node_lem (pos n) h c ci = u32-Emits Opcode.pos_ n _ (λ p. refl) c ci
  node_lem (tab n) h c ci = u32-Emits Opcode.tab n _ (λ p. refl) c ci
  node_lem _ h c ci = absurd h

  parts_lem : (ps : Parts) → ArePlain ps → Emits (emit_parts ps) (code_parts ps)
  parts_lem nil h c ci = ap (λ (t : Bytes). done (record c { buf = t })) (sym (append-nil c.buf))
  parts_lem (cons part parts) h c ci =
      let x = code part (length c.buf) in
      let first = node_lem part h.0 c ci in
      let rest = parts_lem parts h.1 (grow c x) ci in
      rw first (
        rest
        ∙ ap (λ (t : Bytes). done (record c { buf = t }))
            (rw (length-append c.buf x) (append_assoc c.buf x _)))

pub emit_node-code :
    (n : Node) (c : Compiler)
    → IsPlain n
    → c.case_insensitive ≡ false
    → emit_node n c ≡ done (grow c (code n (length c.buf)))
emit_node-code n c h ci = node_lem n h c ci
