-- ===== src/Wrapper/Return.antt =====
-- The code of a call gate behind the call of its target, for results in registers.
use ia2_phase.Wrapper.Alignment.{layout_of-rets}
use ia2_phase.Wrapper.Leave.{free_stack_space-effect, free_stack_space-IsPlain, leave-run}
use ia2_phase.Wrapper.Alignment.{space_freed, layout_of-IsLaidOut}
use ia2_phase.Asm.Memory.{FitsIn}
use ia2_phase.Abi.{AbiSignature}
use ia2_phase.Wrapper.Call.{scrubbed-rsp}
use ia2_phase.Gate.Scrub.{scrubbed, emit_scrub_regs}
use ia2_phase.Gate.Stacks.{IsSwitched, emit_switch_stacks-IsSwitched}
use ia2_phase.Gate.ScrubLaws.{
  loc_regs, IsScrubbed, kept_regs, ScrubsRegisters, emit_scrub_regs-IsScrubbed,
}
use ia2_phase.Pkru.Effects.{SameMemory, intermediate_pkru_after, set_return_pkru_effect}
use ia2_phase.Gate.FrameLaws.{frame_registers, emit_prologue-IsFramed, epilogue_restores}
use ia2_phase.Wrapper.Plain.{mixed_pkru_value-lt}
use ia2_phase.Pkru.{x86_emit_intermediate_pkru, pkru_value, emit_mixed_wrpkru, load_pkru}
use ia2_phase.Registers.{
  rsp, Reg, reg_eq, rax, rdx, is_vector, elem, r10, rcx, r11, reg_eq_comm, gpr, xmm, xreg, qreg,
}
use ia2_phase.Asm.Machine.{run, Env, Machine}
use ia2_phase.Base.{
  ℕ, All, ◌==◌, ◌≡◌, ◌+◌, [], ◌<◌, false, u64, arith, refl, ◌≤◌, ◌-◌, true, ◌∷◌, ap, ◌∙◌, sym,
  append-nil, none, some, Returns, Returns-map,
}
use ia2_phase.Wrapper.{leave}
use ia2_phase.Wrapper.Sizes.{Layout, layout_of}
use ia2_phase.Gate.Items.{SameRest, IsWord, total}
use ia2_phase.Gate.Frame.{
  emit_free_stack_space, emit_epilogue, emit_switch_stacks, emit_load_sp_offset, emit_prologue,
}
use ia2_phase.Asm.States.{IsPlain, IsState, run-IsState}

-- From `u`, where the target returned, to the end of the gate in `t`; `m` is its entry.
pub record IsReturned (env : Env) (m u t : Machine) (l : Layout) (sp tsp caller target : ℕ)
    : Type 0 where
  pub return_pkru : t.pkru ≡ pkru_value caller
  pub return_sp : t.reg rsp ≡ sp
  pub return_frame : (r : Reg) → elem r frame_registers ≡ true → t.reg r ≡ m.reg r
  pub return_results :
      (r : Reg)
      → elem r (loc_regs l.rets) ≡ true
      → elem r (rsp ∷ rcx ∷ r10 ∷ r11 ∷ frame_registers) ≡ false
      → t.reg r ≡ u.reg r
  pub return_others :
      (r : Reg)
      → elem r (loc_regs l.rets) ≡ false
      → scrubbed r ≡ true
      → elem r (rcx ∷ r10 ∷ r11 ∷ frame_registers) ≡ false
      → t.reg r ≡ 0
  pub return_mem : (b : ℕ) → sp - 48 ≤ b → t.mem b ≡ u.mem b
  pub return_cell : t.fs (env.tpoff target) ≡ tsp
  pub return_trapped : t.trapped ≡ u.trapped

after_mixed-IsPlain : (a b : ℕ) → All IsPlain (x86_emit_intermediate_pkru a b rax rdx)
unfolding x86_emit_intermediate_pkru emit_mixed_wrpkru load_pkru
after_mixed-IsPlain a b = ground (arith, mixed_pkru_value-lt a b)

switch-IsPlain : (a b : ℕ) → All IsPlain (emit_switch_stacks a b)
unfolding emit_switch_stacks emit_load_sp_offset is_vector
switch-IsPlain a b = ground arith

frame-rsp : (r : Reg) → elem r frame_registers ≡ true → reg_eq r rsp ≡ false
unfolding reg_eq
frame-rsp (gpr n) h = ground arith
frame-rsp (xmm n) h = refl
frame-rsp (xreg n) h = refl
frame-rsp (qreg n) h = refl

-- The stages together.
returned :
    (env : Env) (m u u1 u2 u3 u4 u5 : Machine) (l : Layout) (sp tsp n caller target : ℕ)
    → IsWord m
    → m.reg rsp ≡ sp
    → 48 ≤ sp
    → sp < 18446744073709551616
    → u.fs (env.tpoff caller) ≡ sp - 48
    → ((b : ℕ) → sp - 48 ≤ b → b < sp → u.mem b ≡ (run env emit_prologue m).mem b)
    → u.reg rsp + n ≡ tsp
    → (SameMemory u u1) × ((r : Reg) → elem r (r10 ∷ r11 ∷ rcx ∷ []) ≡ false → u1.reg r ≡ u.reg r)
    → (u2.reg rsp ≡ u1.reg rsp + n)
      × ((r : Reg) → reg_eq r rsp ≡ false → u2.reg r ≡ u1.reg r)
      × SameRest u1 u2
    → IsSwitched env u2 u3 target caller
    → IsScrubbed (kept_regs l.rets false) u3 u4 (sp - 48)
    → (u5.pkru ≡ pkru_value caller)
      × SameMemory u4 u5
      × ((r : Reg) → elem r (r10 ∷ r11 ∷ rcx ∷ []) ≡ false → u5.reg r ≡ u4.reg r)
    → IsReturned env m u (run env emit_epilogue u5) l sp tsp caller target
unfolding reg_eq
returned env m u u1 u2 u3 u4 u5 l sp tsp n caller target w at room fits cell frame size
      (p_rest, p_regs) (f_sp, f_regs, f_rest) c d (g_pkru, g_rest, g_regs) =
    let framed = emit_prologue-IsFramed env m sp w at fits room in
    let mem5 : (b : ℕ) → sp - 48 ≤ b → u5.mem b ≡ u.mem b = λ b k.
      ap (λ f. f b) g_rest.same_mem
      ∙ d.mem_kept b k
      ∙ ap (λ f. f b) (c.switched_mem ∙ f_rest.same_mem ∙ p_rest.same_mem) in
    let top : u5.reg rsp ≡ (run env emit_prologue m).reg rsp =
      g_regs rsp refl ∙ d.sp_kept ∙ sym framed.frame_top in
    let (back, regs, rest) =
      epilogue_restores env m u5 sp w at fits room top (λ b k j. mem5 b k ∙ frame b k j) in
    let outside : (r : Reg)
        → elem r (rsp ∷ rcx ∷ r10 ∷ r11 ∷ frame_registers) ≡ false
        → elem r frame_registers ≡ false =
      λ r f. ground arith in
    let listed : (r : Reg) → elem r (loc_regs l.rets) ≡ elem r (kept_regs l.rets false) =
      λ r. ap (elem r) (sym (append-nil (loc_regs l.rets))) in
    record {
      return_pkru = rest.same_pkru ∙ g_pkru;
      return_sp = back ∙ at;
      return_frame = λ r e. regs r (frame-rsp r e) ∙ rw e refl;
      return_results = λ r e f.
          regs r (ground (arith, reg_eq_comm r rsp))
          ∙ rw (outside r f) (
              g_regs r (ground arith)
              ∙ d.regs_scrubbed r (ground (arith, reg_eq_comm r rsp))
              ∙ rw (sym (listed r) ∙ e) (
                  c.other_regs r (ground (arith, reg_eq_comm r rsp))
                    (ground (arith, reg_eq_comm r r11))
                  ∙ f_regs r (ground (arith, reg_eq_comm r rsp))
                  ∙ p_regs r (ground arith)));
      return_others = λ r e f g.
          let n : reg_eq r rsp ≡ false = scrubbed-rsp r f in
          regs r n
          ∙ rw (outside r (ground (arith, reg_eq_comm r rsp)))
              (g_regs r (ground arith) ∙ d.regs_scrubbed r n ∙ rw (sym (listed r) ∙ e, f) refl);
      return_mem = λ b k. ap (λ f. f b) rest.same_mem ∙ mem5 b k;
      return_cell =
          ap (λ f. f (env.tpoff target)) (rest.same_fs ∙ g_rest.same_fs ∙ d.fs_kept)
          ∙ c.switched_cell
          ∙ f_sp
          ∙ ap (λ x. x + n) (p_regs rsp refl)
          ∙ size;
      return_trapped =
          rest.same_trapped ∙ g_rest.same_trapped ∙ d.trapped_kept ∙ c.switched_trapped
          ∙ f_rest.same_trapped ∙ p_rest.same_trapped;
    }

-- For a direct wrapper with a layout, no condition functions, no result in memory, and between a
-- caller and a target other than compartment 0: if the target returns with its stack pointer where
-- it was at the call and has not touched the caller's frame and its saved stack pointer, the code
-- behind the call gives the caller its own rights, its stack pointer and its preserved registers
-- back, keeps the registers of the result, clears every other register that the scrubbing routine
-- clears (but rcx, r10 and r11), changes no memory from the frame on, and saves the target's
-- stack pointer where it was before the gate. Registers, cells and memory hold values of their
-- widths, the two stack cells are apart, the routine keeps its contract, and the stacks have room within 64 bits.
pub leave-IsReturned :
    (env : Env) (m u : Machine) (sig : AbiSignature) (l : Layout) (sp tsp caller target : ℕ)
    → layout_of sig none ≡ some l
    → l.stack_return_size ≡ 0
    → ScrubsRegisters env
    → 0 < target
    → IsState m
    → IsState u
    → ((n : ℕ) → FitsIn 8 (env.tpoff n))
    → (env.tpoff target == env.tpoff caller) ≡ false
    → m.reg rsp ≡ sp
    → 48 ≤ sp
    → sp < 18446744073709551616
    → u.reg rsp ≡ tsp - (l.compartment_stack_space + l.stack_alignment)
    → l.stack_arg_size + 40 ≤ tsp
    → tsp < 18446744073709551616
    → u.fs (env.tpoff caller) ≡ sp - 48
    → ((b : ℕ) → sp - 48 ≤ b → b < sp → u.mem b ≡ (run env emit_prologue m).mem b)
    → total (loc_regs l.rets) ≤ sp - 48
    → Returns (emit_scrub_regs target l.rets false) (λ scrub.
      IsReturned env m u (run env (leave l scrub [] caller target) u) l sp tsp caller target)
unfolding reg_eq
leave-IsReturned env m u sig l sp tsp caller target e direct scrubs inside sm su offsets apart at
      frame fits back room tfits cell kept space =
    let laid = layout_of-IsLaidOut sig none l e in
    let located = layout_of-rets sig none l e in
    let w : IsWord m = λ r n. sm.state_regs r in
    let n = u64 (l.stack_arg_size + l.stack_arg_padding + l.stack_alignment) in
    let size : u.reg rsp + n ≡ tsp =
      ap (λ x. x + n) back ∙ space_freed l tsp laid direct room tfits in
    let (p_pkru, p_rest, p_regs) = intermediate_pkru_after env caller target u in
    let u1 = run env (x86_emit_intermediate_pkru caller target rax rdx) u in
    let f = free_stack_space-effect env n u1 (omega (arith, p_regs rsp refl)) in
    let u2 = run env (emit_free_stack_space n) u1 in
    let c = emit_switch_stacks-IsSwitched env u2 target caller apart in
    let u3 = run env (emit_switch_stacks target caller) u2 in
    let s1 = run-IsState env _ u offsets (after_mixed-IsPlain caller target) su in
    let s2 = run-IsState env _ u1 offsets (free_stack_space-IsPlain n) s1 in
    let s3 : IsState u3 = run-IsState env _ u2 offsets (switch-IsPlain target caller) s2 in
    let top : u3.reg rsp ≡ sp - 48 =
      c.switched_sp ∙ ap (λ g. g (env.tpoff caller)) (f.2.same_fs ∙ p_rest.same_fs) ∙ cell in
    let width_kept : total (kept_regs l.rets false) ≡ total (loc_regs l.rets) =
      ap total (append-nil (loc_regs l.rets)) in
    Returns-map (emit_scrub_regs target l.rets false)
      (emit_scrub_regs-IsScrubbed env target l.rets false u3 (sp - 48) scrubs located inside
        (λ r _. s3.state_regs r) top (omega arith) (omega (arith, width_kept)))
      (λ scrub d. rw (leave-run env l scrub caller target u direct) (
        returned env m u u1 u2 u3 (run env scrub u3) _ l sp tsp n caller target w at frame fits cell
          kept size (p_rest, p_regs) f c d (set_return_pkru_effect env caller (run env scrub u3))))
