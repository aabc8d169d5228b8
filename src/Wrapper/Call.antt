-- ===== src/Wrapper/Call.antt =====
-- The state in which a call gate calls its target.
use ia2_phase.Wrapper.Plain.{enter-IsPlain, copy-IsPlain}
use ia2_phase.Registers.{is_vector}
use ia2_phase.Wrapper.Alignment.{
  layout_of-no_wrapper, layout_of-IsLocated, layout_of-IsLaidOut, layout_of-own_args, to_16,
  stack_space-words, stack_space-le, stack_space-result,
}
use ia2_phase.Asm.Memory.{FitsIn, load_bytes-congr}
use ia2_phase.Asm.States.{IsState, run-IsState, general-FitsIn}
use ia2_phase.Abi.{AbiSignature}
use ia2_phase.Gate.Arguments.{emit_copy_args, allocate_return, copy_stack_args}
use ia2_phase.Asm.{Instr}
use ia2_phase.Wrapper.{before_call, enter}
use ia2_phase.Gate.FrameLaws.{emit_prologue-IsFramed}
use ia2_phase.Gate.Frame.{emit_prologue}
use ia2_phase.Gate.Scrub.{scrubbed, emit_scrub_regs}
use ia2_phase.Registers.{
  rsp, Reg, elem, rbp, rax, rdi, r10, r11, r12, reg_eq, reg_eq_comm, gpr, xmm, xreg, qreg,
}
use ia2_phase.Pkru.{pkru_value, emit_set_pkru}
use ia2_phase.Base.{
  ℕ, ◌≡◌, ◌-◌, ◌+◌, ◌%◌, ◌<◌, true, ◌∷◌, [], false, ◌≤◌, ◌∙◌, ap, sym, append-nil, arith, refl,
  List, ◌++◌, none, some, ◌==◌, Returns, u64, inr, from_returns,
}
use ia2_phase.Asm.Machine.{Env, Machine, load_bytes, run, run-append}
use ia2_phase.Wrapper.Sizes.{Layout, layout_of, stack_space, return_padding, padding_to}
use ia2_phase.Wrapper.Entry.{IsEntered, enter-IsEntered}
use ia2_phase.Wrapper.Passing.{IsPassing, pass_on, emit_copy_args-pieces}
use ia2_phase.Wrapper.Reserve.{gap}
use ia2_phase.Gate.ScrubLaws.{
  IsScrubbed, loc_regs, kept_regs, ScrubsRegisters, emit_scrub_regs-IsScrubbed,
}
use ia2_phase.Gate.Items.{IsWord, total}
use ia2_phase.Pkru.Effects.{SameMemory, set_pkru_effect}

-- At the call: `sp` is the stack pointer at the entry of the gate, `tsp` the target's.
pub record IsAtCall (env : Env) (m t : Machine) (l : Layout) (sp tsp caller target : ℕ)
    : Type 0 where
  pub call_pkru : t.pkru ≡ pkru_value target
  pub call_sp : t.reg rsp ≡ tsp - (l.compartment_stack_space + l.stack_alignment)
  pub call_aligned : t.reg rsp % 16 ≡ 0
  pub call_stack_args : (b : ℕ) → b < l.stack_arg_size → t.mem (t.reg rsp + b) ≡ m.mem (sp + 8 + b)
  pub call_reg_args :
      (r : Reg)
      → elem r (loc_regs l.args) ≡ true
      → elem r (rsp ∷ rbp ∷ rax ∷ rdi ∷ r10 ∷ r11 ∷ r12 ∷ []) ≡ false
      → t.reg r ≡ m.reg r
  pub call_rdi : elem rdi (loc_regs l.args) ≡ true → l.stack_return_size ≡ 0 → t.reg rdi ≡ m.reg rdi
  pub call_result :
      0 < l.stack_return_size
      → (elem rdi (loc_regs l.args) ≡ true
          → t.reg rdi ≡ tsp - (l.stack_return_size + l.stack_return_padding))
        × (load_bytes 8 t.mem (tsp - (l.stack_return_size + l.stack_return_padding) - 8)
            ≡ m.reg rdi)
  pub call_others :
      (r : Reg)
      → elem r (loc_regs l.args) ≡ false
      → scrubbed r ≡ true
      → elem r (rax ∷ r10 ∷ r11 ∷ []) ≡ false
      → t.reg r ≡ 0
  pub call_frame : (b : ℕ) → sp - 48 ≤ b → t.mem b ≡ (run env emit_prologue m).mem b
  pub call_cell : t.fs (env.tpoff caller) ≡ sp - 48
  pub call_trapped : m.pkru ≡ pkru_value caller → t.trapped ≡ m.trapped

pub scrubbed-rsp : (r : Reg) → scrubbed r ≡ true → reg_eq r rsp ≡ false
unfolding scrubbed reg_eq
scrubbed-rsp (gpr n) h = ground arith
scrubbed-rsp (xmm n) h = refl
scrubbed-rsp (xreg n) h = refl
scrubbed-rsp (qreg n) h = refl

-- The four stages together.
at_call :
    (env : Env) (m m4 m5 m6 t : Machine) (l : Layout) (sp tsp caller target : ℕ)
    → IsWord m
    → m.reg rsp ≡ sp
    → 48 ≤ sp
    → sp < 18446744073709551616
    → tsp ≤ sp - 48
    → tsp % 16 ≡ 8
    → IsEntered env m m4 sp caller target
    → IsPassing m4 m5 tsp
        (sp - 48 + 56)
        (l.compartment_stack_space + l.stack_alignment)
        l.stack_return_size
        l.stack_arg_size
    → IsScrubbed (kept_regs l.args false) m5 m6 (m5.reg rsp)
    → (t.pkru ≡ pkru_value target)
      × SameMemory m6 t
      × ((r : Reg) → elem r (r10 ∷ r11 ∷ rax ∷ []) ≡ false → t.reg r ≡ m6.reg r)
    → l.stack_return_padding ≡ return_padding l.stack_return_size
    → (0 < l.stack_return_size
        → l.stack_return_size + return_padding l.stack_return_size + 8 ≤ l.compartment_stack_space)
    → l.compartment_stack_space + l.stack_alignment ≤ tsp
    → IsAtCall env m t l sp tsp caller target
unfolding reg_eq
at_call env m m4 m5 m6 t l sp tsp caller target w at room fits below off a b c
      (d_pkru, d_rest, d_regs) padding space_for space_le =
    let rsp_kept : t.reg rsp ≡ m5.reg rsp = d_regs rsp refl ∙ c.sp_kept in
    let regs : (r : Reg) → elem r (loc_regs l.args) ≡ elem r (kept_regs l.args false) =
      λ r. ap (elem r) (sym (append-nil (loc_regs l.args))) in
    let mem5 : (x : ℕ) → m5.reg rsp ≤ x → t.mem x ≡ m5.mem x =
      λ x k. ap (λ f. f x) d_rest.same_mem ∙ c.mem_kept x k in
    let framed = emit_prologue-IsFramed env m sp w at fits room in
    let kept : (r : Reg)
        → reg_eq r rsp ≡ false
        → elem r (loc_regs l.args) ≡ true
        → m6.reg r ≡ m5.reg r =
      λ r n e. c.regs_scrubbed r n ∙ rw (sym (regs r) ∙ e) refl in
    record {
      call_pkru = d_pkru;
      call_sp = rsp_kept ∙ b.passing_sp;
      call_aligned = rw rsp_kept (b.passing_aligned off);
      call_stack_args = λ x k.
          ap (λ s. t.mem (s + x)) rsp_kept
          ∙ mem5 (m5.reg rsp + x) (omega arith)
          ∙ b.passing_args x k
          ∙ ap (λ f. f (sp - 48 + 56 + x)) a.entered_mem
          ∙ framed.frame_mem (sp - 48 + 56 + x) (omega arith)
          ∙ ap m.mem (omega arith);
      call_reg_args = λ r e f.
          d_regs r (ground arith)
          ∙ kept r (ground (arith, reg_eq_comm r rsp)) e
          ∙ b.passing_regs r (ground (arith, reg_eq_comm r rsp)) (ground (arith, reg_eq_comm r rax))
              (ground (arith, reg_eq_comm r rdi)) (ground (arith, reg_eq_comm r r12))
          ∙ a.entered_regs r (ground (arith, reg_eq_comm r rsp)) (ground arith);
      call_rdi =
          λ e f. d_regs rdi refl ∙ kept rdi refl e ∙ b.passing_rdi f ∙ a.entered_regs rdi refl refl;
      call_result = λ k.
          let (address, word) = b.passing_result k in
          rw padding (
            (λ e. d_regs rdi refl ∙ kept rdi refl e ∙ address),
            load_bytes-congr 8 t.mem m5.mem
                  (tsp - (l.stack_return_size + return_padding l.stack_return_size) - 8)
                  (λ x f g. mem5 x (omega (arith, b.passing_sp, space_for k)))
                ∙ word
                ∙ a.entered_regs rdi refl refl,
          );
      call_others = λ r e f g.
          d_regs r (ground arith)
          ∙ c.regs_scrubbed r (scrubbed-rsp r f)
          ∙ rw (sym (regs r) ∙ e, f) refl;
      call_frame = λ x k.
          mem5 x (omega (arith, b.passing_sp))
          ∙ b.passing_outside x (omega arith)
          ∙ ap (λ f. f x) a.entered_mem;
      call_cell =
          ap (λ f. f (env.tpoff caller)) (d_rest.same_fs ∙ c.fs_kept ∙ b.passing_fs)
          ∙ a.entered_cell;
      call_trapped =
          λ e. d_rest.same_trapped ∙ c.trapped_kept ∙ b.passing_trapped ∙ a.entered_trapped e;
    }

-- The code of before_call, in its four stages.
before_call-pieces :
    (l : Layout) (caller target : ℕ) (copy scrub : List Instr)
    → l.wrapper_args ≡ none
    → emit_copy_args l.args none l.stack_return_size l.stack_return_padding l.stack_alignment
        l.stack_arg_size l.stack_arg_padding l.wrapper_stack_arg_size caller
      ≡ some copy
    → emit_scrub_regs caller l.args false ≡ some scrub
    → before_call l [] [] [] false caller target
      ≡ some (enter [] [] [] caller target ++ copy ++ scrub ++ emit_set_pkru false target none)
unfolding before_call
before_call-pieces l caller target copy scrub e f g = rw (e, f, g) refl

run-four :
    (env : Env) (a b c d : List Instr) (m : Machine)
    → run env (a ++ b ++ c ++ d) m ≡ run env d (run env c (run env b (run env a m)))
run-four env a b c d m = rw (run-append, run-append, run-append) refl

-- For a direct wrapper with a layout, no condition functions and no type registry checks, between
-- a caller other than compartment 0 and a target with a stack of its own below the caller's frame:
-- the code up to the call is written, and it calls the target with PKRU granting the target's
-- rights, a stack pointer aligned to 16 bytes on the target's stack with the caller's stack
-- arguments on top. The registers among the argument locations, other than rsp, rbp, rax, rdi
-- and r10 to r12, are as the caller left them; so is rdi where no result is in memory. Where one is,
-- rdi as an argument register is the address of the space for it on the target's stack, and the
-- word below that space is what the caller had in rdi. Every other register that the scrubbing
-- routine clears is zero (but rax, r10 and r11, which set PKRU), and the caller's frame and its
-- saved stack pointer are in place; the assertion on PKRU does not trap if the caller had its own
-- rights. Registers, cells and memory hold values of their widths, the two stack cells are apart,
-- the routine keeps its contract, and the stacks have room within 64 bits.
pub before_call-IsAtCall :
    (env : Env) (m : Machine) (sig : AbiSignature) (l : Layout) (sp tsp caller target : ℕ)
    → layout_of sig none ≡ some l
    → ScrubsRegisters env
    → 0 < caller
    → IsState m
    → ((n : ℕ) → FitsIn 8 (env.tpoff n))
    → (env.tpoff caller == env.tpoff target) ≡ false
    → m.reg rsp ≡ sp
    → m.fs (env.tpoff target) ≡ tsp
    → tsp % 16 ≡ 8
    → 48 ≤ sp
    → tsp ≤ sp - 48
    → total (loc_regs l.args) + l.stack_return_size + l.stack_arg_size + 40 ≤ tsp
    → sp + l.stack_arg_size + 16 < 18446744073709551616
    → Returns
        (before_call l [] [] [] false caller target)
        (λ code. IsAtCall env m (run env code m) l sp tsp caller target)
unfolding is_vector
before_call-IsAtCall env m sig l sp tsp caller target e scrubs inside state offsets apart at saved
      off frame below room bound =
    let laid = layout_of-IsLaidOut sig none l e in
    let own = layout_of-own_args sig l e in
    let located = layout_of-IsLocated sig none l e in
    let w : IsWord m = λ r n. state.state_regs r in
    let m4 = run env (enter [] [] [] caller target) m in
    let a = enter-IsEntered env m sp caller target w at frame (omega arith) apart in
    let s4 : IsState m4 = run-IsState env _ m offsets (enter-IsPlain caller target) state in
    let align = u64 (stack_space l.stack_return_size l.stack_arg_size + 8) % 16 in
    let copy =
      allocate_return l.stack_return_size (return_padding l.stack_return_size)
      ++ gap align
      ++ copy_stack_args l.stack_arg_size (padding_to 8 l.stack_arg_size) l.stack_arg_size caller
      ++ [] in
    let m5 = run env copy m4 in
    let b =
      pass_on env m4 tsp (sp - 48) l.stack_return_size l.stack_arg_size caller s4.state_mem
        (general-FitsIn rdi m4 refl s4) (a.entered_sp ∙ saved) a.entered_cell (omega arith)
        (omega arith) (omega arith) (inr (omega arith)) in
    let s5 : IsState m5 = run-IsState env copy m4 offsets (copy-IsPlain _ _ _ _ _ _) s4 in
    let copy_eq : emit_copy_args l.args none l.stack_return_size l.stack_return_padding
          l.stack_alignment l.stack_arg_size l.stack_arg_padding l.wrapper_stack_arg_size caller
        ≡ some copy =
      rw (laid.ret_padding, laid.alignment, laid.space, laid.arg_padding, own)
        (emit_copy_args-pieces l.args l.stack_return_size _ _ l.stack_arg_size _ caller
          (to_16 _ (stack_space-words l.stack_return_size l.stack_arg_size)).0) in
    let b' : IsPassing m4 m5 tsp (sp - 48 + 56) (l.compartment_stack_space + l.stack_alignment)
        l.stack_return_size l.stack_arg_size =
      rw (laid.alignment, laid.space) b in
    let width_kept : total (kept_regs l.args false) ≡ total (loc_regs l.args) =
      ap total (append-nil (loc_regs l.args)) in
    let (scrub, scrub_eq, c) = from_returns (emit_scrub_regs caller l.args false) (
      emit_scrub_regs-IsScrubbed env caller l.args false m5 (m5.reg rsp) scrubs located inside
        (λ r n. s5.state_regs r) refl (omega (arith, b.passing_sp))
        (omega (
          arith,
          b.passing_sp,
          width_kept,
          stack_space-le l.stack_return_size l.stack_arg_size (omega arith),
        ))) in
    let m6 = run env scrub m5 in
    rw
      (before_call-pieces l caller target copy scrub (layout_of-no_wrapper sig l e) copy_eq
        scrub_eq)
      (rw
        (run-four env (enter [] [] [] caller target) copy scrub (emit_set_pkru false target none) m)
        (at_call env m m4 m5 m6 _ l sp tsp caller target w at frame (omega arith) below off a b' c
          (set_pkru_effect env false target none m6) laid.ret_padding
          (λ k.
            rw laid.space (stack_space-result l.stack_return_size l.stack_arg_size (omega arith) k))
          (rw (laid.alignment, laid.space)
            (omega (arith, stack_space-le l.stack_return_size l.stack_arg_size (omega arith))))))
