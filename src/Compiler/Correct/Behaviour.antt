-- ===== src/Compiler/Correct/Behaviour.antt =====
-- The code of a plain pattern on the abstract machine: a thread at its start gives one thread behind
-- it for each position where the pattern may end, in their order.
use libsnobol.Base.{
  ℕ, suc, ◌+◌, ◌%◌, ◌^◌, ◌<◌, ◌≡◌, refl, ap, sym, subst, ◌∙◌, List, [], ◌∷◌, ◌++◌, arith, length,
  length-append,
}
use mathlib.Core.List.{append_assoc}
use libsnobol.Compiler.Ast.{
  Node, Parts, AnchorType, anchor_start, anchor_end, literal, concat, alt, capture, assign, len,
  dynamic_eval, anchor, rem, fail, rpos, rtab, pos, tab, nil, cons,
}
use libsnobol.Compiler.Code.{u32_bytes}
use libsnobol.Compiler.Correct.Layout.{Sits, Sits-left, Sits-right, Sits-bound}
use libsnobol.Compiler.Correct.Meaning.{ends, ends_parts, from_each, anchored}
use libsnobol.Compiler.Correct.Plain.{
  IsPlain, ArePlain, Instr, fail_, rem_, lit, split, jmp, cap_start, cap_end, assign_, anchor_,
  len_, rpos_, rtab_, pos_, tab_, instr_bytes, code, code_parts, alt_code, capture_code,
  concat_code, anchor_number,
}
use libsnobol.Compiler.Correct.Threads.{
  Threads, at_each, successors, Fits, Answers, steps, Simulates, Simulates-below,
}
use libsnobol.Vm.Bytes.{Bytes}

at_each-append : (ip : ℕ) (ps qs : List ℕ) → at_each ip (ps ++ qs) ≡ at_each ip ps ++ at_each ip qs
at_each-append ip [] qs = refl
at_each-append ip (p ∷ ps) qs = ap (λ t. (ip, p) ∷ t) (at_each-append ip ps qs)

from_each-one : (ps : List ℕ) → from_each (λ p. p ∷ []) ps ≡ ps
unfolding from_each
from_each-one [] = refl
from_each-one (p ∷ ps) = ap (λ t. p ∷ t) (from_each-one ps)

module _ (bc s : Bytes) (short : length bc < 2 ^ 32) where
  -- Code `x`, wherever it stands, takes a thread to the ends that `f` gives.
  abbrev Behaves : (ℕ → Bytes) → (ℕ → List ℕ) → Type 0
  Behaves x f =
      (ip p : ℕ) (ts : Threads)
      → Sits bc ip (x ip)
      → Simulates bc s ((ip, p) ∷ ts) (at_each (ip + length (x ip)) (f p) ++ ts)

  each-Simulates :
      (ip ip' : ℕ) (f : ℕ → List ℕ)
      → ((p : ℕ) (ts : Threads) → Simulates bc s ((ip, p) ∷ ts) (at_each ip' (f p) ++ ts))
      → (ps : List ℕ) (ts : Threads)
      → Simulates bc s (at_each ip ps ++ ts) (at_each ip' (from_each f ps) ++ ts)
  unfolding from_each
  each-Simulates ip ip' f one [] ts r d = d
  each-Simulates ip ip' f one (p ∷ ps) ts r d =
      let split_up : at_each ip' (f p ++ from_each f ps) ++ ts
          ≡ at_each ip' (f p) ++ (at_each ip' (from_each f ps) ++ ts) =
        ap (λ t. t ++ ts) (at_each-append ip' (f p) (from_each f ps)) ∙ append_assoc _ _ ts in
      let d' = subst (λ t. Answers bc s t r) split_up d in
      one p (at_each ip ps ++ ts) r
        (Simulates-below bc s (at_each ip' (f p)) _ _ (each-Simulates ip ip' f one ps ts) r d')

  instr-Behaves :
      (i : ℕ → Instr) (f : ℕ → List ℕ)
      → ((ip : ℕ) → Sits bc ip (instr_bytes ip (i ip)) → Fits ip (i ip))
      → ((ip next p : ℕ) → successors s (i ip) next p ≡ at_each next (f p))
      → Behaves (λ ip. instr_bytes ip (i ip)) f
  instr-Behaves i f fits same ip p ts sits r d =
      steps (i ip) (fits ip sits) sits (subst (λ t. Answers bc s (t ++ ts) r) (sym (same ip _ p)) d)

  concat-Behaves :
      (x y : ℕ → Bytes) (f g : ℕ → List ℕ)
      → Behaves x f
      → Behaves y g
      → Behaves (concat_code x y) (λ p. from_each g (f p))
  unfolding concat_code
  concat-Behaves x y f g hx hy ip p ts sits r d =
      let mid = ip + length (x ip) in
      let stop : ip + length (x ip ++ y mid) ≡ mid + length (y mid) =
        omega (arith, length-append (x ip) (y mid)) in
      let d' = subst (λ t. Answers bc s (at_each t (from_each g (f p)) ++ ts) r) stop d in
      let right = Sits-right (x ip) (y mid) sits in
      hx ip p ts (Sits-left (x ip) (y mid) sits) r
        (each-Simulates mid (mid + length (y mid)) g (λ q us. hy mid q us right) (f p) ts r d')

  capture-Behaves :
      (reg : ℕ) (x : ℕ → Bytes) (f : ℕ → List ℕ) → Behaves x f → Behaves (capture_code reg x) f
  unfolding capture_code instr_bytes successors
  capture-Behaves reg x f hx ip p ts sits r d =
      let x' = x (ip + 2) in
      let close : Bytes = 10 ∷ (reg % 256) ∷ [] in
      let mid = ip + 2 + length x' in
      let inner = Sits-right (9 ∷ (reg % 256) ∷ []) (x' ++ close) sits in
      let stop : ip + suc (suc (length (x' ++ close))) ≡ mid + 2 =
        omega (arith, length-append x' close) in
      let d' : Answers bc s (at_each (mid + 2) (from_each (λ q. q ∷ []) (f p)) ++ ts) r =
        subst (λ t. Answers bc s (at_each (mid + 2) t ++ ts) r) (sym (from_each-one (f p)))
          (subst (λ t. Answers bc s (at_each t (f p) ++ ts) r) stop d) in
      let behind = Sits-right x' close inner in
      steps (cap_start reg) tt (Sits-left (9 ∷ (reg % 256) ∷ []) _ sits) (
        hx (ip + 2) p ts (Sits-left x' close inner) r (
          each-Simulates mid (mid + 2) (λ q. q ∷ []) (λ q us r e. steps (cap_end reg) tt behind e)
            (f p) ts r d'))

  alt-Behaves :
      (x y : ℕ → Bytes) (f g : ℕ → List ℕ)
      → Behaves x f
      → Behaves y g
      → Behaves (alt_code x y) (λ p. f p ++ g p)
  unfolding alt_code instr_bytes successors
  alt-Behaves x y f g hx hy ip p ts sits r d =
      let a = ip + 9 in
      let x' = x a in
      let b = a + length x' + 5 in
      let y' = y b in
      let stop = b + length y' in
      let head : Bytes = 3 ∷ u32_bytes a ++ u32_bytes b in
      let jump : Bytes = 2 ∷ u32_bytes stop in
      let behind = Sits-right head (x' ++ (jump ++ y')) sits in
      let at_jump = Sits-right x' (jump ++ y') behind in
      let at_right = Sits-right jump y' at_jump in
      let within = Sits-bound y' at_right in
      let whole : ip + length (head ++ (x' ++ (jump ++ y'))) ≡ stop =
        omega (arith, length-append x' (jump ++ y')) in
      let apart : at_each stop (f p ++ g p) ++ ts
          ≡ at_each stop (f p) ++ (at_each stop (g p) ++ ts) =
        ap (λ t. t ++ ts) (at_each-append stop (f p) (g p)) ∙ append_assoc _ _ ts in
      let d' =
        subst (λ t. Answers bc s t r) apart
          (subst (λ t. Answers bc s (at_each t (f p ++ g p) ++ ts) r) whole d) in
      let right =
        Simulates-below bc s (at_each stop (f p)) _ ((b, p) ∷ ts) (hy b p ts at_right) r d' in
      let jumped =
        each-Simulates (a + length x') stop (λ q. q ∷ [])
          (λ q us r e.
            steps (jmp stop) (omega (arith, within, short)) (Sits-left jump y' at_jump) e)
          (f p) ((b, p) ∷ ts) r
          (subst (λ t. Answers bc s (at_each stop t ++ (b, p) ∷ ts) r) (sym (from_each-one (f p)))
            right) in
      steps (split a b) (omega (arith, within, short), omega (arith, within, short))
        (Sits-left head _ sits) (hx a p ((b, p) ∷ ts) (Sits-left x' _ behind) r jumped)

  anchor-Behaves :
      (t : AnchorType)
      → Behaves (λ ip. instr_bytes ip (anchor_ (anchor_number t))) (ends (anchor t) s)
  unfolding successors anchor_number ends anchored
  anchor-Behaves anchor_start =
      instr-Behaves (λ ip. anchor_ 0) _ (λ ip h. omega arith) (λ ip n p. refl)
  anchor-Behaves anchor_end =
      instr-Behaves (λ ip. anchor_ 1) _ (λ ip h. omega arith) (λ ip n p. refl)

  lit-Fits : (text : Bytes) (ip : ℕ) → Sits bc ip (instr_bytes ip (lit text)) → Fits ip (lit text)
  unfolding instr_bytes
  lit-Fits text ip h =
      let within = Sits-bound (4 ∷ u32_bytes (ip + 9) ++ (u32_bytes (length text) ++ text)) h in
      (omega (arith, within, short), omega (arith, within, short))

  nil-Behaves : Behaves (λ ip. []) (λ p. p ∷ [])
  nil-Behaves ip p ts sits r d =
      let same : ip + 0 ≡ ip = omega arith in subst (λ t. Answers bc s ((t, p) ∷ ts) r) same d

  mutual
    unfolding IsPlain ArePlain code ends successors

    code-Behaves : (n : Node) → IsPlain n → Behaves (code n) (ends n s)
    code-Behaves (literal text) h =
        instr-Behaves (λ ip. lit text) _ (lit-Fits text) (λ ip n p. refl)
    code-Behaves (concat parts) h = parts-Behaves parts h
    code-Behaves (alt left right) h =
        alt-Behaves (code left) (code right) (ends left s) (ends right s) (code-Behaves left h.0)
          (code-Behaves right h.1)
    code-Behaves (capture reg sub) h =
        capture-Behaves reg (code sub) (ends sub s) (code-Behaves sub h)
    code-Behaves (assign var reg) h =
        instr-Behaves (λ ip. assign_ var reg) (ends (assign var reg) s) (λ ip _. tt)
          (λ ip n p. refl)
    code-Behaves (len n) h = instr-Behaves (λ ip. len_ n) _ (λ ip _. h) (λ ip n p. refl)
    code-Behaves (dynamic_eval expr) h = code-Behaves expr h
    code-Behaves (anchor atype) h = anchor-Behaves atype
    code-Behaves rem h = instr-Behaves (λ ip. rem_) (ends rem s) (λ ip _. tt) (λ ip n p. refl)
    code-Behaves fail h = instr-Behaves (λ ip. fail_) (ends fail s) (λ ip _. tt) (λ ip n p. refl)
    code-Behaves (rpos n) h = instr-Behaves (λ ip. rpos_ n) _ (λ ip _. h) (λ ip n p. refl)
    code-Behaves (rtab n) h = instr-Behaves (λ ip. rtab_ n) _ (λ ip _. h) (λ ip n p. refl)
    code-Behaves (pos n) h = instr-Behaves (λ ip. pos_ n) _ (λ ip _. h) (λ ip n p. refl)
    code-Behaves (tab n) h = instr-Behaves (λ ip. tab_ n) _ (λ ip _. h) (λ ip n p. refl)
    code-Behaves _ h = absurd h

    parts-Behaves : (ps : Parts) → ArePlain ps → Behaves (code_parts ps) (ends_parts ps s)
    parts-Behaves nil h = nil-Behaves
    parts-Behaves (cons part parts) h =
        concat-Behaves (code part) (code_parts parts) (ends part s) (ends_parts parts s)
          (code-Behaves part h.0) (parts-Behaves parts h.1)

  -- An answer of the threads behind a plain pattern's code is one of the thread at its start.
  pub code-Simulates :
      (n : Node) (ip p : ℕ) (ts : Threads)
      → IsPlain n
      → Sits bc ip (code n ip)
      → Simulates bc s ((ip, p) ∷ ts) (at_each (ip + length (code n ip)) (ends n s p) ++ ts)
  code-Simulates n ip p ts h sits = code-Behaves n h ip p ts sits
