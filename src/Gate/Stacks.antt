-- ===== src/Gate/Stacks.antt =====
-- The switch between the stacks of two compartments.
use ia2_phase.Registers.{rsp, reg_eq, Reg, r11, reg_eq_comm}
use ia2_phase.Base.{ℕ, ◌==◌, ◌≡◌, false, arith, ◌∙◌, refl}
use ia2_phase.Asm.Machine.{Env, Machine, run, exec, update_reg, update_mem}
use ia2_phase.Gate.Frame.{emit_switch_stacks, emit_load_sp_offset}

-- From `m` to `t`: the stack pointer is the one saved for `new`, the old one is saved for `old`,
-- and nothing else has changed but the scratch register r11.
pub record IsSwitched (env : Env) (m t : Machine) (old new : ℕ) : Type 0 where
  pub switched_sp : t.reg rsp ≡ m.fs (env.tpoff new)
  pub switched_cell : t.fs (env.tpoff old) ≡ m.reg rsp
  pub other_cells : (c : ℕ) → (c == env.tpoff old) ≡ false → t.fs c ≡ m.fs c
  pub other_regs : (r : Reg) → reg_eq r rsp ≡ false → reg_eq r r11 ≡ false → t.reg r ≡ m.reg r
  pub switched_mem : t.mem ≡ m.mem
  pub switched_pkru : t.pkru ≡ m.pkru
  pub switched_trapped : t.trapped ≡ m.trapped

pub emit_switch_stacks-IsSwitched :
    (env : Env) (m : Machine) (old new : ℕ)
    → (env.tpoff old == env.tpoff new) ≡ false
    → IsSwitched env m (run env (emit_switch_stacks old new) m) old new
unfolding emit_switch_stacks emit_load_sp_offset run exec update_reg update_mem reg_eq
emit_switch_stacks-IsSwitched env m old new apart = record {
  switched_sp = rw apart refl;
  switched_cell = ground arith;
  other_cells = λ c h. ground arith;
  other_regs = λ r h k. ground (arith, reg_eq_comm rsp r, reg_eq_comm r11 r);
  switched_mem = refl;
  switched_pkru = refl;
  switched_trapped = refl;
}

-- There and back between compartments with cells of their own: if the code run on the stack of `new` leaves the caller's cell alone, the switch
-- back restores the caller's stack pointer and saves the other one for the next call.
pub emit_switch_stacks_restores :
    (env : Env) (m u : Machine) (old new : ℕ)
    → (env.tpoff old == env.tpoff new) ≡ false
    → u.fs (env.tpoff old) ≡ (run env (emit_switch_stacks old new) m).fs (env.tpoff old)
    → let t = run env (emit_switch_stacks new old) u in
      (t.reg rsp ≡ m.reg rsp) × (t.fs (env.tpoff new) ≡ u.reg rsp) × IsSwitched env u t new old
emit_switch_stacks_restores env m u old new apart kept =
    let there = emit_switch_stacks-IsSwitched env m old new apart in
    let back = emit_switch_stacks-IsSwitched env u new old (ground arith) in
    (back.switched_sp ∙ kept ∙ there.switched_cell, back.switched_cell, back)
