-- ===== src/Compiler/Correct/Plain.antt =====
-- The part of the syntax tree of core/include/snobol/ast.h that needs no class, loop, label or table,
-- and its code as core/src/compiler_codegen.c means it: each jump with its final target.
use libsnobol.Base.{ℕ, ◌+◌, ◌%◌, ◌^◌, ◌<◌, [], ◌∷◌, ◌++◌, length}
use libsnobol.Compiler.Ast.{
  Node, Parts, AnchorType, anchor_start, anchor_end, literal, concat, alt, capture, assign, len,
  dynamic_eval, anchor, rem, fail, rpos, rtab, pos, tab, nil, cons,
}
use libsnobol.Compiler.Code.{u16_bytes, u32_bytes}
use libsnobol.Vm.Bytes.{Bytes}

-- literals, concatenations, alternatives, captures, assignments, anchors, positions, LEN, REM and FAIL,
-- and evaluated expressions around them
unfoldable mutual
  pub IsPlain : Node → Type 0
  IsPlain (literal text) = Unit {0}
  IsPlain (concat parts) = ArePlain parts
  IsPlain (alt left right) = IsPlain left × IsPlain right
  IsPlain (capture reg sub) = IsPlain sub
  IsPlain (assign var reg) = Unit {0}
  IsPlain (len n) = n < 2 ^ 32
  IsPlain (dynamic_eval expr) = IsPlain expr
  IsPlain (anchor atype) = Unit {0}
  IsPlain rem = Unit {0}
  IsPlain fail = Unit {0}
  IsPlain (rpos n) = n < 2 ^ 32
  IsPlain (rtab n) = n < 2 ^ 32
  IsPlain (pos n) = n < 2 ^ 32
  IsPlain (tab n) = n < 2 ^ 32
  IsPlain _ = ⊥

  pub ArePlain : Parts → Type 0
  ArePlain nil = Unit {0}
  ArePlain (cons part parts) = IsPlain part × ArePlain parts

-- an instruction of that code
pub data Instr : Type 0 where
  accept fail_ rem_ : Instr
  lit : Bytes → Instr
  split : (a b : ℕ) → Instr
  jmp : (target : ℕ) → Instr
  cap_start cap_end : (reg : ℕ) → Instr
  assign_ : (var reg : ℕ) → Instr
  anchor_ : (type : ℕ) → Instr
  len_ rpos_ rtab_ pos_ tab_ : (n : ℕ) → Instr

-- the bytes of an instruction at position `p`
unfoldable pub instr_bytes : ℕ → Instr → Bytes
instr_bytes p accept = 0 ∷ []
instr_bytes p fail_ = 1 ∷ []
instr_bytes p rem_ = 34 ∷ []
instr_bytes p (lit text) = 4 ∷ u32_bytes (p + 9) ++ (u32_bytes (length text) ++ text)
instr_bytes p (split a b) = 3 ∷ u32_bytes a ++ u32_bytes b
instr_bytes p (jmp target) = 2 ∷ u32_bytes target
instr_bytes p (cap_start reg) = 9 ∷ reg % 256 ∷ []
instr_bytes p (cap_end reg) = 10 ∷ reg % 256 ∷ []
instr_bytes p (assign_ var reg) = 11 ∷ u16_bytes var ++ reg % 256 ∷ []
instr_bytes p (anchor_ type) = 14 ∷ type ∷ []
instr_bytes p (len_ n) = 12 ∷ u32_bytes n
instr_bytes p (rpos_ n) = 35 ∷ u32_bytes n
instr_bytes p (rtab_ n) = 36 ∷ u32_bytes n
instr_bytes p (pos_ n) = 37 ∷ u32_bytes n
instr_bytes p (tab_ n) = 38 ∷ u32_bytes n

unfoldable pub anchor_number : AnchorType → ℕ
anchor_number anchor_start = 0
anchor_number anchor_end = 1

-- an alternative of two pieces of code at `p`
unfoldable pub alt_code : (ℕ → Bytes) → (ℕ → Bytes) → ℕ → Bytes
unfolding instr_bytes
alt_code left right p =
    let x = left (p + 9) in
    let q = p + 9 + length x + 5 in
    let y = right q in
    instr_bytes p (split (p + 9) q)
    ++ (x ++ (instr_bytes (p + 9 + length x) (jmp (q + length y)) ++ y))

unfoldable pub capture_code : ℕ → (ℕ → Bytes) → ℕ → Bytes
unfolding instr_bytes
capture_code reg sub p =
    instr_bytes p (cap_start reg) ++ (sub (p + 2) ++ instr_bytes p (cap_end reg))

unfoldable pub concat_code : (ℕ → Bytes) → (ℕ → Bytes) → ℕ → Bytes
concat_code first rest p = let x = first p in x ++ rest (p + length x)

-- the code of a plain node at position `p`
unfoldable mutual
  unfolding instr_bytes alt_code capture_code concat_code anchor_number

  pub code : Node → ℕ → Bytes
  code (literal text) p = instr_bytes p (lit text)
  code (concat parts) p = code_parts parts p
  code (alt left right) p = alt_code (code left) (code right) p
  code (capture reg sub) p = capture_code reg (code sub) p
  code (assign var reg) p = instr_bytes p (assign_ var reg)
  code (len n) p = instr_bytes p (len_ n)
  code (dynamic_eval expr) p = code expr p
  code (anchor atype) p = instr_bytes p (anchor_ (anchor_number atype))
  code rem p = instr_bytes p rem_
  code (rpos n) p = instr_bytes p (rpos_ n)
  code (rtab n) p = instr_bytes p (rtab_ n)
  code (pos n) p = instr_bytes p (pos_ n)
  code (tab n) p = instr_bytes p (tab_ n)
  code _ p = instr_bytes p fail_

  pub code_parts : Parts → ℕ → Bytes
  code_parts nil p = []
  code_parts (cons part parts) p = concat_code (code part) (code_parts parts) p
