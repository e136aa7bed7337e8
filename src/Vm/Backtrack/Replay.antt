-- ===== src/Vm/Backtrack/Replay.antt =====
-- The replay of the undo trail (`vm_trail_replay`, core/src/vm_capture.c) as seen from the capture and
-- variable registers.
use libsnobol.Base.{
  ℕ, suc, ◌≤◌, ◌≡◌, refl, ap, true, List, [], ◌∷◌, arith, ltb, length, if◌then◌else◌, Bool-cases,
  inl, inr,
}
use libsnobol.Vm.State.{
  Captures, Registers, UndoKind, counter_dec, cap_write, wl_pop, var_write, UndoRecord,
}
use libsnobol.Vm.Trail.{undo_cap, undo_var, undo_by_kind, undo, replay_records, cut}

undo_caps_by_kind : UndoKind → UndoRecord → Captures → Captures
undo_caps_by_kind counter_dec e c = c
undo_caps_by_kind cap_write e c = undo_cap e c
undo_caps_by_kind wl_pop e c = c
undo_caps_by_kind var_write e c = undo_var e c

-- what `undo` does to the capture and variable registers
unfoldable pub undo_caps : UndoRecord → Captures → Captures
unfolding undo_caps_by_kind undo_cap undo_var
undo_caps e c = undo_caps_by_kind e.kind e c

undo_by_kind-caps :
    (k : UndoKind) (e : UndoRecord) (r : Registers)
    → (undo_by_kind k e r).caps ≡ undo_caps_by_kind k e r.caps
unfolding undo_by_kind undo_caps_by_kind
undo_by_kind-caps counter_dec e r = refl
undo_by_kind-caps cap_write e r = refl
undo_by_kind-caps wl_pop e r = refl
undo_by_kind-caps var_write e r = refl

undo-caps : (e : UndoRecord) (r : Registers) → (undo e r).caps ≡ undo_caps e r.caps
unfolding undo undo_caps
undo-caps e r = undo_by_kind-caps e.kind e r

unfoldable pub replay_caps : List UndoRecord → ℕ → Captures → Captures
replay_caps [] base c = c
replay_caps (e ∷ es) base c =
    let rest = replay_caps es base (undo_caps e c) in if ltb base (suc (length es)) then rest else c

pub replay_records-caps :
    (es : List UndoRecord) (base : ℕ) (r : Registers)
    → (replay_records es base r).caps ≡ replay_caps es base r.caps
unfolding replay_records replay_caps
replay_records-caps [] base r = refl
replay_records-caps (e ∷ es) base r = elim (Bool-cases (ltb base (suc (length es)))) [
  | inl more ↦
      rw (more, replay_records-caps es base (undo e r)) (ap (replay_caps es base) (undo-caps e r))
  | inr stop ↦ rw stop
]

-- nothing lies past the top
pub replay_caps-top :
    (es : List UndoRecord) (base : ℕ) (c : Captures) → length es ≤ base → replay_caps es base c ≡ c
unfolding replay_caps
replay_caps-top [] base c h = refl
replay_caps-top (e ∷ es) base c h = ground arith

pub cut-top : (es : List UndoRecord) (base : ℕ) → length es ≤ base → cut es base ≡ es
unfolding cut
cut-top [] base h = refl
cut-top (e ∷ es) base h = ground arith

pub length-cut : (es : List UndoRecord) (base : ℕ) → base ≤ length es → length (cut es base) ≡ base
unfolding cut
length-cut [] base h = omega arith
length-cut (e ∷ es) base h = ground (arith, length-cut es base)

pub le-length-cut :
    (es : List UndoRecord) (base c : ℕ) → base ≤ c → base ≤ length es → base ≤ length (cut es c)
unfolding cut
le-length-cut [] base c h k = k
le-length-cut (e ∷ es) base c h k = ground (arith, le-length-cut es base c)

-- Replaying to `c` and then to `base` is replaying to `base`.
pub replay_caps-replay_caps :
    (es : List UndoRecord) (base c : ℕ) (r : Captures)
    → base ≤ c
    → replay_caps (cut es c) base (replay_caps es c r) ≡ replay_caps es base r
unfolding replay_caps cut
replay_caps-replay_caps [] base c r h = refl
replay_caps-replay_caps (e ∷ es) base c r h = elim (Bool-cases (ltb c (suc (length es)))) [
  | inl more ↦
      let past : ltb base (suc (length es)) ≡ true = ground arith in
      rw (more, past) (replay_caps-replay_caps es base c (undo_caps e r) h)
  | inr stop ↦ rw stop
]

pub cut-cut : (es : List UndoRecord) (base c : ℕ) → base ≤ c → cut (cut es c) base ≡ cut es base
unfolding cut
cut-cut [] base c h = refl
cut-cut (e ∷ es) base c h = elim (Bool-cases (ltb c (suc (length es)))) [
  | inl more ↦
      let past : ltb base (suc (length es)) ≡ true = ground arith in
      rw (more, past) (cut-cut es base c h)
  | inr stop ↦ rw stop
]

-- a record logged for a change that it undoes
pub replay_caps-logged :
    (e : UndoRecord) (es : List UndoRecord) (base : ℕ) (c c' : Captures)
    → base ≤ length es
    → undo_caps e c' ≡ c
    → (replay_caps (e ∷ es) base c' ≡ replay_caps es base c) × (cut (e ∷ es) base ≡ cut es base)
unfolding replay_caps cut
replay_caps-logged e es base c c' h u =
    let past : ltb base (suc (length es)) ≡ true = ground arith in rw (past, u) (refl, refl)
