-- ===== src/Compiler/Correct/Registers.antt =====
-- The register writes of core/src/vm_exec.c and their log leave the threads alone.
use libsnobol.Base.{ℕ, ◌≡◌, refl, Bool, true, false, if◌then◌else◌}
use libsnobol.Vm.Handlers.Control.{write_cap_start, write_cap_end, write_var, set_var}
use libsnobol.Vm.State.{Vm}
use libsnobol.Vm.Trail.{trail_cap_write, trail_var_write}

-- the two states agree on what the threads are read from
pub record Frame (vm vm' : Vm) : Type 0 where
  pub same_bc : vm'.bc ≡ vm.bc
  pub same_s : vm'.s ≡ vm.s
  pub same_ip : vm'.ip ≡ vm.ip
  pub same_pos : vm'.pos ≡ vm.pos
  pub same_arena : vm'.arena ≡ vm.arena

pub Frame-refl : (vm : Vm) → Frame vm vm
Frame-refl vm = record {
  same_bc = refl;
  same_s = refl;
  same_ip = refl;
  same_pos = refl;
  same_arena = refl;
}

pub Frame-if : (b : Bool) {vm x y : Vm} → Frame vm x → Frame vm y → Frame vm (if b then x else y)
Frame-if true fx fy = fx
Frame-if false fx fy = fy

fields :
    {vm x y : Vm}
    → Frame vm x
    → y.bc ≡ x.bc
    → y.s ≡ x.s
    → y.ip ≡ x.ip
    → y.pos ≡ x.pos
    → y.arena ≡ x.arena
    → Frame vm y
fields f a b c d e = record {
  same_bc = cc (a, f.same_bc);
  same_s = cc (b, f.same_s);
  same_ip = cc (c, f.same_ip);
  same_pos = cc (d, f.same_pos);
  same_arena = cc (e, f.same_arena);
}

trail_cap_write-Frame : (i sub a b : ℕ) (vm : Vm) → Frame vm (trail_cap_write i sub a b vm)
unfolding trail_cap_write
trail_cap_write-Frame i sub a b vm =
    Frame-if vm.use_compact_choice (fields (Frame-refl vm) refl refl refl refl refl) (Frame-refl vm)

trail_var_write-Frame : (i a b : ℕ) (vm : Vm) → Frame vm (trail_var_write i a b vm)
unfolding trail_var_write
trail_var_write-Frame i a b vm =
    Frame-if vm.use_compact_choice (fields (Frame-refl vm) refl refl refl refl refl) (Frame-refl vm)

pub cap_start-Frame :
    (r a b : ℕ) (vm : Vm) → Frame vm (write_cap_start r (trail_cap_write r 0 a b vm))
unfolding write_cap_start
cap_start-Frame r a b vm = fields (trail_cap_write-Frame r 0 a b vm) refl refl refl refl refl

pub set_var-Frame : (var r : ℕ) {vm x : Vm} → Frame vm x → Frame vm (set_var var r x)
unfolding set_var write_var
set_var-Frame var r {vm} {x} f =
    let c = x.regs.caps in
    let logged = trail_var_write var (c.var_start var) (c.var_end var) x in
    let w = trail_var_write-Frame var (c.var_start var) (c.var_end var) x in
    let g : Frame vm logged = fields f w.same_bc w.same_s w.same_ip w.same_pos w.same_arena in
    fields g refl refl refl refl refl

pub cap_end-Frame : (r a b : ℕ) (vm : Vm) → Frame vm (write_cap_end r (trail_cap_write r 1 a b vm))
unfolding write_cap_end
cap_end-Frame r a b vm = fields (trail_cap_write-Frame r 1 a b vm) refl refl refl refl refl
