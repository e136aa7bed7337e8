-- ===== src/Compiler/Safety/Extends.antt =====
-- The invariant of the compiler's state and the order in which it grows: core/src/compiler_codegen.c
-- and core/src/compiler_analysis.c.
use libsnobol.Base.{
  ℕ, zero, suc, ◌+◌, ◌-◌, ◌≤◌, ◌≡◌, refl, ap, sym, subst, ◌∙◌, Bool, true, false, List, [], ◌∷◌,
  ◌++◌, arith, length, set, length-append, length-set, if◌then◌else◌, ◌/◌, ◌%◌,
}
use mathlib.Core.List.{append_assoc, append-nil}
use libsnobol.Compiler.CharClass.{CcEntry}
use libsnobol.Compiler.Code.{Emission, done, refused, fault, ◌>>=◌, patch_u32}
use libsnobol.Compiler.Emit.{Compiler, Emitter, patch}
use libsnobol.Compiler.Labels.{LabelEntry}
use libsnobol.Vm.Bytes.{Bytes}
use libsnobol.Vm.State.{max_loops}

-- each label that is defined stands at or before `n`
abbrev pub LabelsWithin : ℕ → List LabelEntry → Type 0
LabelsWithin n [] = Unit {0}
LabelsWithin n (e ∷ es) = (e.defined ≡ true → e.offset ≤ n) × LabelsWithin n es

pub record IsValid (c : Compiler) : Type 0 where
  pub loops : c.next_loop_id ≤ max_loops
  pub targets : LabelsWithin (length c.buf) c.labels

-- `c'` continues `c`: its code and its classes start with those of `c`.
pub record Extends (c c' : Compiler) : Type 0 where
  pub code : Bytes
  pub emitted : c'.buf ≡ c.buf ++ code
  pub more : List CcEntry
  pub kept : c'.classes ≡ c.classes ++ more

pub Extends-refl : (c : Compiler) → Extends c c
Extends-refl c = record {
  code = [];
  emitted = sym (append-nil c.buf);
  more = [];
  kept = sym (append-nil c.classes);
}

pub Extends-trans : {a b c : Compiler} → Extends a b → Extends b c → Extends a c
Extends-trans {a} f g = record {
  code = f.code ++ g.code;
  emitted = g.emitted ∙ ap (λ t. t ++ g.code) f.emitted ∙ append_assoc a.buf f.code g.code;
  more = f.more ++ g.more;
  kept = g.kept ∙ ap (λ t. t ++ g.more) f.kept ∙ append_assoc a.classes f.more g.more;
}

pub Extends-length : {c c' : Compiler} → Extends c c' → length c.buf ≤ length c'.buf
Extends-length {c} f = omega (arith, ap length f.emitted, length-append c.buf f.code)

pub LabelsWithin-le :
    (m n : ℕ) (es : List LabelEntry) → m ≤ n → LabelsWithin m es → LabelsWithin n es
LabelsWithin-le m n [] h w = tt
LabelsWithin-le m n (e ∷ es) h w = (λ d. omega (arith, w.0 d, h), LabelsWithin-le m n es h w.1)

-- The emission leaves a valid state that continues `c`, wherever it succeeds.
abbrev pub Sound : Compiler → Emission Compiler → Type 0
Sound c (done c') = Extends c c' × IsValid c'
Sound c refused = Unit {0}
Sound c fault = Unit {0}

abbrev pub IsSound : Emitter → Type 0
IsSound e = (c : Compiler) → IsValid c → Sound c (e c)

pub Sound-if :
    (b : Bool) (c : Compiler) (x y : Emission Compiler)
    → Sound c x
    → Sound c y
    → Sound c (if b then x else y)
Sound-if true c x y p q = p
Sound-if false c x y p q = q

-- what follows an emission that is sound
pub Sound-bind :
    (c : Compiler) (m : Emission Compiler) (f : Emitter)
    → Sound c m
    → ((c' : Compiler) → Extends c c' → IsValid c' → Sound c' (f c'))
    → Sound c (m >>= f)
Sound-bind c (done c') f (x, v) h = lift (f c') (h c' x v)
  where
    lift : (o : Emission Compiler) → Sound c' o → Sound c o
    lift (done c'') (y, w) = (Extends-trans x y, w)
    lift refused w = tt
    lift fault w = tt
Sound-bind c refused f s h = tt
Sound-bind c fault f s h = tt

-- more code behind the buffer, with the same classes, loops and labels
pub Sound-grow :
    {c c' : Compiler} (x : Bytes)
    → Extends c c' × IsValid c'
    → Extends c (record c' { buf = c'.buf ++ x }) × IsValid (record c' { buf = c'.buf ++ x })
Sound-grow {c} {c'} x (f, v) = (
  Extends-trans f
      (record { code = x; emitted = refl; more = []; kept = sym (append-nil c'.classes) }),
  record {
    loops = v.loops;
    targets =
        LabelsWithin-le (length c'.buf) _ c'.labels (omega (arith, length-append c'.buf x))
          v.targets;
  },
)

set-past :
    (a xs : Bytes) (k v : ℕ) → length a ≤ k → set (a ++ xs) k v ≡ a ++ set xs (k - length a) v
set-past [] xs k v h = ap (λ t. set xs t v) (omega arith)
set-past (x ∷ a) xs zero v h = absurd (omega (arith, h))
set-past (x ∷ a) xs (suc k) v h =
    let less : suc k - suc (length a) ≡ k - length a = omega arith in
    ap (λ t. x ∷ t) (set-past a xs k v (omega (arith, h)) ∙ ap (λ t. a ++ set xs t v) (sym less))

-- the patches keep the buffer's length and what stands before them
pub Sound-patch :
    {c c' : Compiler} (k v : ℕ)
    → length c.buf ≤ k
    → Extends c c' × IsValid c'
    → Extends c (patch k v c') × IsValid (patch k v c')
unfolding patch patch_u32
Sound-patch {c} {c'} k v h (f, ok) =
    let a = c.buf in
    let e0 = ap (λ t. set t k (v / 16777216 % 256)) f.emitted ∙ set-past a f.code k _ h in
    let e1 =
      ap (λ t. set t (k + 1) (v / 65536 % 256)) e0 ∙ set-past a _ (k + 1) _ (omega (arith, h)) in
    let e2 =
      ap (λ t. set t (k + 2) (v / 256 % 256)) e1 ∙ set-past a _ (k + 2) _ (omega (arith, h)) in
    let e3 = ap (λ t. set t (k + 3) (v % 256)) e2 ∙ set-past a _ (k + 3) _ (omega (arith, h)) in
    (
      record { code = _; emitted = e3; more = f.more; kept = f.kept },
      record {
        loops = ok.loops;
        targets =
            subst (λ n. LabelsWithin n c'.labels)
              (sym (
                length-set _ (k + 3) _
                ∙ length-set _ (k + 2) _
                ∙ length-set _ (k + 1) _
                ∙ length-set c'.buf k _))
              ok.targets;
      },
    )
