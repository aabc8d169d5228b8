-- ===== src/Pkru/Effects.antt =====
-- What the code that sets PKRU changes.
use ia2_phase.Registers.{Reg, elem, r10, reg_eq_iff}
use ia2_phase.Base.{◌≡◌, ◌%◌, arith, ◌∷◌, [], false, Bool, Option, refl, some, true, none}
use ia2_phase.Asm.Machine.{Machine, run, exec, update_reg, Env}
use ia2_phase.Pkru.{
  mixed_pkru_value, pkru_value, x86_emit_intermediate_pkru, ℕ, rcx, rdx, r11, rax,
  emit_set_return_pkru, emit_set_pkru,
}

-- The rest of a machine when registers and PKRU change.
pub record SameMemory (m t : Machine) : Type 0 where
  pub same_mem : t.mem ≡ m.mem
  pub same_fs : t.fs ≡ m.fs
  pub same_trapped : t.trapped ≡ m.trapped

pkru_value-bound : (k : ℕ) → pkru_value k % 4294967296 ≡ pkru_value k
unfolding pkru_value
pkru_value-bound k = omega arith

mixed_pkru_value-bound : (a b : ℕ) → mixed_pkru_value a b % 4294967296 ≡ mixed_pkru_value a b
unfolding mixed_pkru_value
mixed_pkru_value-bound a b = omega arith

-- Before the call, the code sets PKRU to the value for both compartments and changes no register
-- but r10, r11 and rax, no memory and no thread-local cell.
pub intermediate_pkru_before :
    (env : Env) (caller target : ℕ) (m : Machine)
    → let t = run env (x86_emit_intermediate_pkru caller target rcx rdx) m in
      (t.pkru ≡ mixed_pkru_value caller target)
      × SameMemory m t
      × ((r : Reg) → elem r (r10 ∷ r11 ∷ rax ∷ []) ≡ false → t.reg r ≡ m.reg r)
unfolding x86_emit_intermediate_pkru mixed_pkru_value run exec update_reg
intermediate_pkru_before env caller target m = (
  mixed_pkru_value-bound caller target,
  record { same_mem = refl; same_fs = refl; same_trapped = refl },
  λ r h. ground (arith, reg_eq_iff rcx r, reg_eq_iff rdx r),
)

-- After the call, the code sets PKRU to the value for both compartments and changes no register
-- but r10, r11 and rcx (so it keeps the results in rax and rdx), no memory and no thread-local cell.
pub intermediate_pkru_after :
    (env : Env) (caller target : ℕ) (m : Machine)
    → let t = run env (x86_emit_intermediate_pkru caller target rax rdx) m in
      (t.pkru ≡ mixed_pkru_value caller target)
      × SameMemory m t
      × ((r : Reg) → elem r (r10 ∷ r11 ∷ rcx ∷ []) ≡ false → t.reg r ≡ m.reg r)
unfolding x86_emit_intermediate_pkru mixed_pkru_value run exec update_reg
intermediate_pkru_after env caller target m = (
  mixed_pkru_value-bound caller target,
  record { same_mem = refl; same_fs = refl; same_trapped = refl },
  λ r h. ground (arith, reg_eq_iff rax r, reg_eq_iff rdx r),
)

-- The value for the call, or for a destructor of a process with a libc compartment.
abbrev pub set_value : Bool → ℕ → Option ℕ → ℕ
set_value true target (some pkey) = mixed_pkru_value pkey target
set_value _ target _ = pkru_value target

-- The code sets PKRU to the value of the target, or to the value of two compartments if the libc
-- compartment is enabled and a union key is given; it keeps every register but r10, r11 and rax,
-- the memory and the thread-local cells.
pub set_pkru_effect :
    (env : Env) (libc : Bool) (target : ℕ) (union_pkey : Option ℕ) (m : Machine)
    → let t = run env (emit_set_pkru libc target union_pkey) m in
      (t.pkru ≡ set_value libc target union_pkey)
      × SameMemory m t
      × ((r : Reg) → elem r (r10 ∷ r11 ∷ rax ∷ []) ≡ false → t.reg r ≡ m.reg r)
unfolding emit_set_pkru pkru_value mixed_pkru_value run exec update_reg
set_pkru_effect env true target (some pkey) m = (
  mixed_pkru_value-bound pkey target,
  record { same_mem = refl; same_fs = refl; same_trapped = refl },
  λ r h. ground (arith, reg_eq_iff rcx r, reg_eq_iff rdx r),
)
set_pkru_effect env true target none m = (
  pkru_value-bound target,
  record { same_mem = refl; same_fs = refl; same_trapped = refl },
  λ r h. ground (arith, reg_eq_iff rcx r, reg_eq_iff rdx r),
)
set_pkru_effect env false target _ m = (
  pkru_value-bound target,
  record { same_mem = refl; same_fs = refl; same_trapped = refl },
  λ r h. ground (arith, reg_eq_iff rcx r, reg_eq_iff rdx r),
)

-- On the way back, the code sets PKRU to the caller's value and changes no register but r10, r11
-- and rcx, no memory and no thread-local cell.
pub set_return_pkru_effect :
    (env : Env) (caller : ℕ) (m : Machine)
    → let t = run env (emit_set_return_pkru caller) m in
      (t.pkru ≡ pkru_value caller)
      × SameMemory m t
      × ((r : Reg) → elem r (r10 ∷ r11 ∷ rcx ∷ []) ≡ false → t.reg r ≡ m.reg r)
unfolding emit_set_return_pkru pkru_value run exec update_reg
set_return_pkru_effect env caller m = (
  pkru_value-bound caller,
  record { same_mem = refl; same_fs = refl; same_trapped = refl },
  λ r h. ground (arith, reg_eq_iff rax r, reg_eq_iff rdx r),
)
