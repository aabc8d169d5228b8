-- ===== src/Wrapper/Entry.antt =====
-- The code of a call gate from its entry to the switch to the target's stack, for a function
-- without condition functions and type registry checks.
use ia2_phase.Asm.{Instr}
use ia2_phase.Gate.Frame.{emit_switch_stacks, emit_prologue}
use ia2_phase.Registers.{rsp, Reg, reg_eq, rcx, rdx, elem, rbp, r10, r11, rax, reg_eq_comm}
use ia2_phase.Gate.Items.{IsWord}
use ia2_phase.Base.{ℕ, [], ◌≡◌, ◌-◌, ◌≤◌, ◌<◌, ◌==◌, false, ◌∙◌, ◌∷◌, ◌++◌, refl, arith, ap}
use ia2_phase.Asm.Machine.{Env, exec, update_reg, Machine, run, run-append}
use ia2_phase.Wrapper.{enter, emit_pre_conditions, pre_calls}
use ia2_phase.Gate.FrameLaws.{emit_prologue-IsFramed}
use ia2_phase.Gate.Stacks.{emit_switch_stacks-IsSwitched}
use ia2_phase.Pkru.Effects.{intermediate_pkru_before}
use ia2_phase.Pkru.{pkru_value, mixed_pkru_value, x86_emit_intermediate_pkru}

-- From the entry of a gate with stack pointer `sp` to the target's stack.
pub record IsEntered (env : Env) (m t : Machine) (sp caller target : ℕ) : Type 0 where
  pub entered_sp : t.reg rsp ≡ m.fs (env.tpoff target)
  pub entered_cell : t.fs (env.tpoff caller) ≡ sp - 48
  pub entered_regs :
      (r : Reg)
      → reg_eq r rsp ≡ false
      → elem r (rbp ∷ r10 ∷ r11 ∷ rax ∷ []) ≡ false
      → t.reg r ≡ m.reg r
  pub entered_mem : t.mem ≡ (run env emit_prologue m).mem
  pub entered_pkru : t.pkru ≡ mixed_pkru_value caller target
  pub entered_trapped : m.pkru ≡ pkru_value caller → t.trapped ≡ m.trapped

enter-run :
    (env : Env) (m : Machine) (caller target : ℕ)
    → run env (enter [] [] [] caller target) m
      ≡ run env (emit_switch_stacks caller target) (
          run env
            (x86_emit_intermediate_pkru caller target rcx rdx)
            (exec env (Instr.assert_pkru (pkru_value caller)) (run env emit_prologue m)))
unfolding enter emit_pre_conditions pre_calls run
enter-run env m caller target =
    let assertion = Instr.assert_pkru (pkru_value caller) in
    let mixed = x86_emit_intermediate_pkru caller target rcx rdx in
    let switch = emit_switch_stacks caller target in
    run-append env emit_prologue (assertion ∷ (mixed ++ switch)) m
    ∙ run-append env mixed switch (exec env assertion (run env emit_prologue m))

pub enter-IsEntered :
    (env : Env) (m : Machine) (sp caller target : ℕ)
    → IsWord m
    → m.reg rsp ≡ sp
    → 48 ≤ sp
    → sp < 18446744073709551616
    → (env.tpoff caller == env.tpoff target) ≡ false
    → IsEntered env m (run env (enter [] [] [] caller target) m) sp caller target
unfolding exec update_reg
enter-IsEntered env m sp caller target w at room fits apart =
    let m1 = run env emit_prologue m in
    let a = emit_prologue-IsFramed env m sp w at fits room in
    let m2 = exec env (Instr.assert_pkru (pkru_value caller)) m1 in
    let asserted : (r : Reg) → elem r (r10 ∷ r11 ∷ rax ∷ []) ≡ false → m2.reg r ≡ m1.reg r =
      λ r e. ground arith in
    let passed : m1.pkru ≡ pkru_value caller → m2.trapped ≡ m1.trapped = λ e. ground arith in
    let (b_pkru, b_rest, b_regs) = intermediate_pkru_before env caller target m2 in
    let m3 = run env (x86_emit_intermediate_pkru caller target rcx rdx) m2 in
    let c = emit_switch_stacks-IsSwitched env m3 caller target apart in
    rw enter-run (record {
      entered_sp = c.switched_sp ∙ ap (λ f. f (env.tpoff target)) (b_rest.same_fs ∙ a.frame_fs);
      entered_cell = c.switched_cell ∙ b_regs rsp refl ∙ a.frame_top;
      entered_regs = λ r e f.
          c.other_regs r e (ground (arith, reg_eq_comm r r11))
          ∙ b_regs r (ground arith)
          ∙ asserted r (ground arith)
          ∙ a.frame_regs r e (ground (arith, reg_eq_comm r rbp));
      entered_mem = c.switched_mem ∙ b_rest.same_mem;
      entered_pkru = c.switched_pkru ∙ b_pkru;
      entered_trapped = λ e.
          c.switched_trapped ∙ b_rest.same_trapped ∙ passed (a.frame_pkru ∙ e) ∙ a.frame_trapped;
    })
