-- ===== src/Compiler/Code.antt =====
-- The bytecode buffer and the result of the emitters: `CodeBuf`, `cb_ensure` and the `cb_emit_*`
-- functions of core/src/compiler_analysis.c. The compiler's state keeps the emitted bytes; `cb_ensure`
-- stands apart.
use libsnobol.Base.{ℕ, zero, suc, ◌+◌, ◌*◌, ◌/◌, ◌%◌, [], ◌∷◌, ◌++◌, leb, ◌==◌, if◌then◌else◌, set}
use libsnobol.Vm.Bytes.{Bytes}

-- `while (c->len + need > newcap) newcap *= 2;`, with fuel
unfoldable pub double_until : ℕ → ℕ → ℕ → ℕ
double_until zero want cap = cap
double_until (suc fuel) want cap =
    let more = double_until fuel want (cap * 2) in if leb want cap then cap else more

-- `cb_ensure`, the capacity that it leaves for `len` bytes and `need` more
unfoldable pub cb_ensure : ℕ → ℕ → ℕ → ℕ
unfolding double_until
cb_ensure len need cap =
    if leb (len + need) cap
    then cap
    else double_until (len + need) (len + need) (if cap == 0 then 4096 else cap * 2)

-- what an emitter ends in: the new state, the return value -1, or a read through no valid pointer
pub data Emission {ℓ} (A : Type ℓ) : Type ℓ where
  done : A → Emission A
  refused : Emission A
  fault : Emission A

-- `if (emit(…) != 0) return -1;`
infixl 5 ◌>>=◌
abbrev pub ◌>>=◌ {ℓ κ} : {A : Type ℓ} {B : Type κ} → Emission A → (A → Emission B) → Emission B
done a >>= f = f a
refused >>= f = refused
fault >>= f = fault

-- the bytes of `cb_emit_u16` and `cb_emit_u32`
abbrev pub u16_bytes : ℕ → Bytes
u16_bytes v = (v / 256 % 256) ∷ (v % 256) ∷ []

abbrev pub u32_bytes : ℕ → Bytes
u32_bytes v = (v / 16777216 % 256) ∷ (v / 65536 % 256) ∷ (v / 256 % 256) ∷ (v % 256) ∷ []

unfoldable pub cb_emit_u8 : ℕ → Bytes → Bytes
cb_emit_u8 v buf = buf ++ (v % 256) ∷ []

unfoldable pub cb_emit_u16 : ℕ → Bytes → Bytes
cb_emit_u16 v buf = buf ++ u16_bytes v

unfoldable pub cb_emit_u32 : ℕ → Bytes → Bytes
cb_emit_u32 v buf = buf ++ u32_bytes v

unfoldable pub cb_emit_bytes : Bytes → Bytes → Bytes
cb_emit_bytes b buf = buf ++ b

-- `c->buf[where + 0] = (v >> 24) & 0xff;` and the three writes after it
unfoldable pub patch_u32 : ℕ → ℕ → Bytes → Bytes
patch_u32 where_ v buf =
    set
      (set (set (set buf where_ (v / 16777216 % 256)) (where_ + 1) (v / 65536 % 256)) (where_ + 2)
        (v / 256 % 256))
      (where_ + 3) (v % 256)
