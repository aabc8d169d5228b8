-- ===== src/Wrapper/Passing.antt =====
-- What emit_copy_args of tools/rewriter/GenCallAsm.cpp does on the target's stack, for a wrapper
-- that passes the arguments of its own signature on.
use ia2_phase.Wrapper.Reserve.{IsReserved, pointer_size, reserve, gap, gap-effect}
use ia2_phase.Wrapper.Alignment.{layout_of-IsLaidOut, layout_of-own_args}
use ia2_phase.Gate.StackArgs.{copy_stack_args-AreCopied, AreCopied}
use ia2_phase.Gate.Items.{SameRest}
use ia2_phase.Abi.{ArgLocation, AbiSignature}
use ia2_phase.Wrapper.Alignment.{
  stack_space-exact, padding_to_8, stack_space-words, to_16, padding_to_lt,
}
use ia2_phase.Wrapper.Sizes.{return_padding, stack_space, padding_to, Layout, layout_of}
use ia2_phase.Asm.Memory.{IsBytes, FitsIn, load_bytes-congr}
use ia2_phase.Registers.{rsp, reg_eq, rdi, Reg, rax, r12}
use ia2_phase.Base.{
  ℕ, ◌≡◌, ◌-◌, ◌+◌, ◌≤◌, ◌<◌, ◌⊎◌, u64, arith, refl, ◌%◌, inl, inr, List, false, ◌++◌, none, some,
  [], ◌/◌, ◌*◌, ◌∙◌, ap, sym, Returns,
}
use ia2_phase.Asm.Machine.{run, Machine, Env, load_bytes, run-append}
use ia2_phase.Wrapper.Alignment.{return_padding_lt}
use ia2_phase.Gate.Arguments.{allocate_return, emit_copy_args, copy_stack_args}

-- The target's stack at the call: `space` bytes below `sp` hold, from the top, the space for a
-- result of `ret` bytes, the caller's address for it, the gap and the `arg` bytes of arguments that
-- the caller passed from `src` on.
pub record IsPassing (m t : Machine) (sp src space ret arg : ℕ) : Type 0 where
  pub passing_sp : t.reg rsp ≡ sp - space
  pub passing_aligned : sp % 16 ≡ 8 → t.reg rsp % 16 ≡ 0
  pub passing_args : (b : ℕ) → b < arg → t.mem (t.reg rsp + b) ≡ m.mem (src + b)
  pub passing_result :
      0 < ret
      → (t.reg rdi ≡ sp - (ret + return_padding ret))
        × (load_bytes 8 t.mem (sp - (ret + return_padding ret) - 8) ≡ m.reg rdi)
  pub passing_outside : (b : ℕ) → (b < sp - space) ⊎ (sp ≤ b) → t.mem b ≡ m.mem b
  pub passing_rdi : ret ≡ 0 → t.reg rdi ≡ m.reg rdi
  pub passing_regs :
      (r : Reg)
      → reg_eq r rsp ≡ false
      → reg_eq r rax ≡ false
      → reg_eq r rdi ≡ false
      → reg_eq r r12 ≡ false
      → t.reg r ≡ m.reg r
  pub passing_fs : t.fs ≡ m.fs
  pub passing_pkru : t.pkru ≡ m.pkru
  pub passing_trapped : t.trapped ≡ m.trapped

-- The three pieces that emit_copy_args writes when no wrapper signature is given.
pub emit_copy_args-pieces :
    (args : List ArgLocation) (ret padding align arg arg_padding caller_pkey : ℕ)
    → (align ≡ 0) ⊎ (align ≡ 8)
    → emit_copy_args args none ret padding align arg arg_padding arg caller_pkey
      ≡ some (
          allocate_return ret padding
          ++ gap align
          ++ copy_stack_args arg arg_padding arg caller_pkey
          ++ [])
unfolding emit_copy_args gap
emit_copy_args-pieces args ret padding align arg arg_padding caller_pkey (inl e) = rw e refl
emit_copy_args-pieces args ret padding align arg arg_padding caller_pkey (inr e) = rw e refl

-- The three stages together.
assemble :
    (m m1 m2 t : Machine) (sp base ret arg align space n : ℕ)
    → IsReserved m m1 sp (pointer_size ret) (ret + return_padding ret)
    → (m2.reg rsp ≡ sp - (pointer_size ret + (ret + return_padding ret)) - align)
      × ((r : Reg) → reg_eq r rsp ≡ false → m2.reg r ≡ m1.reg r)
      × SameRest m1 m2
    → AreCopied m2 t
        (sp - (pointer_size ret + (ret + return_padding ret)) - align)
        (base + 56 + (arg - arg))
        n
    → space ≡ pointer_size ret + (ret + return_padding ret) + (arg + padding_to 8 arg)
    → arg + padding_to 8 arg ≡ 8 * n
    → (8 + space + align) % 16 ≡ 0
    → space + align ≤ sp
    → (base + arg + 64 + ret + arg + 40 ≤ sp) ⊎ (sp ≤ base + 48)
    → space + align ≤ ret + arg + 40
    → IsPassing m t sp (base + 56) (space + align) ret arg
unfolding reg_eq
assemble m m1 m2 t sp base ret arg align space n a (b_sp, b_regs, b_rest) c exact whole mult room
      apart small =
    let start = pointer_size ret in
    let R = ret + return_padding ret in
    let top : sp - (start + R) - align - 8 * n ≡ sp - (space + align) = omega arith in
    let at : t.reg rsp ≡ sp - (space + align) = c.copied_sp ∙ top in
    record {
      passing_sp = at;
      passing_aligned = λ e. omega arith;
      passing_args = λ b k.
          ap t.mem (ap (λ x. x + b) (at ∙ sym top))
          ∙ c.copied_bytes b (omega arith)
          ∙ ap (λ f. f (base + 56 + (arg - arg) + b)) b_rest.same_mem
          ∙ a.reserved_outside (base + 56 + (arg - arg) + b) (omega arith)
          ∙ ap m.mem (omega arith);
      passing_result = λ k.
          let word : start ≡ 8 = ground arith in
          (
            c.copied_regs rdi refl refl refl ∙ b_regs rdi refl ∙ a.reserved_rdi word,
            load_bytes-congr 8 t.mem m1.mem (sp - R - 8)
                  (λ b l u. c.copied_outside b (omega arith) ∙ ap (λ f. f b) b_rest.same_mem)
                ∙ a.reserved_word word,
          );
      passing_outside = λ b k.
          c.copied_outside b (omega arith)
          ∙ ap (λ f. f b) b_rest.same_mem
          ∙ a.reserved_outside b (omega arith);
      passing_rdi =
          λ k. c.copied_regs rdi refl refl refl ∙ b_regs rdi refl ∙ a.reserved_kept (ground arith);
      passing_regs = λ r e f g k. c.copied_regs r e f k ∙ b_regs r e ∙ a.reserved_regs r e g;
      passing_fs = c.copied_fs ∙ b_rest.same_fs ∙ a.reserved_fs;
      passing_pkru = c.copied_pkru ∙ b_rest.same_pkru ∙ a.reserved_pkru;
      passing_trapped = c.copied_trapped ∙ b_rest.same_trapped ∙ a.reserved_trapped;
    }

pub pass_on :
    (env : Env) (m : Machine) (sp base ret arg caller_pkey : ℕ)
    → IsBytes m.mem
    → FitsIn 8 (m.reg rdi)
    → m.reg rsp ≡ sp
    → m.fs (env.tpoff caller_pkey) ≡ base
    → ret + arg + 40 ≤ sp
    → sp < 18446744073709551616
    → base + arg + 64 < 18446744073709551616
    → (base + arg + 64 + ret + arg + 40 ≤ sp) ⊎ (sp ≤ base + 48)
    → let space = stack_space ret arg in
      let align = u64 (space + 8) % 16 in
      IsPassing m
        (run env
          (allocate_return ret (return_padding ret)
            ++ gap align
            ++ copy_stack_args arg (padding_to 8 arg) arg caller_pkey
            ++ [])
          m)
        sp
        (base + 56)
        (space + align)
        ret
        arg
unfolding run reg_eq
pass_on env m sp base ret arg pkey h word at saved room fits bound apart =
    let words = stack_space-words ret arg in
    let space = stack_space ret arg in
    let align = u64 (space + 8) % 16 in
    let (which, mult) = to_16 space words in
    let R = ret + return_padding ret in
    let start = pointer_size ret in
    let small_ret = return_padding_lt ret in
    let small_arg = padding_to_lt arg in
    let start_le : start ≤ 8 = ground arith in
    let exact : space ≡ start + R + (arg + padding_to 8 arg) =
      stack_space-exact ret arg (omega arith) in
    let n = (arg + padding_to 8 arg) / 8 in
    let whole : arg + padding_to 8 arg ≡ 8 * n = omega (arith, padding_to_8 arg) in
    let m1 = run env (allocate_return ret (return_padding ret)) m in
    let a = reserve env m sp ret h word at (omega arith) fits in
    let m2 = run env (gap align) m1 in
    let (b_sp, b_regs, b_rest) =
      gap-effect env m1 (sp - (start + R)) align which a.reserved_sp (omega arith) (omega arith) in
    let c =
      copy_stack_args-AreCopied env m2 (sp - (start + R) - align) base arg (padding_to 8 arg) arg n
        pkey (λ x. rw b_rest.same_mem (a.reserved_bytes x)) b_sp
        (rw b_rest.same_fs (rw a.reserved_fs saved)) whole small_arg (omega arith) (omega arith)
        (omega arith) (omega arith) (omega arith) in
    rw (run-append, run-append, run-append)
      (assemble m m1 m2 _ sp base ret arg align space n a (b_sp, b_regs, b_rest) c exact whole mult
        (omega arith) apart (omega arith))

-- For every signature that has a layout, emit_copy_args writes code for a wrapper that passes its
-- own arguments on. Run on the target's stack, whose pointer `sp` is 8 bytes off a multiple of 16,
-- with the caller's stack pointer saved at `base`, the code leaves the stack pointer aligned to 16
-- bytes, exactly the computed space below `sp`; the stack arguments lie on top, byte by byte as
-- the caller passed them behind the frame and the return address; for a result in memory, rdi is
-- the address of the reserved space and the word below it the caller's address. PKRU, the saved
-- stack pointers, the memory outside that space and all registers but rsp, rax, rdi and r12 are
-- kept; rdi too if no result is in memory. The stacks are apart and within 64 bits.
pub emit_copy_args-IsPassing :
    (env : Env) (m : Machine) (sig : AbiSignature) (l : Layout) (sp base caller_pkey : ℕ)
    → layout_of sig none ≡ some l
    → IsBytes m.mem
    → FitsIn 8 (m.reg rdi)
    → m.reg rsp ≡ sp
    → sp % 16 ≡ 8
    → m.fs (env.tpoff caller_pkey) ≡ base
    → l.stack_return_size + l.stack_arg_size + 40 ≤ sp
    → sp < 18446744073709551616
    → base + l.stack_arg_size + 64 < 18446744073709551616
    → (base + l.stack_arg_size + 64 + l.stack_return_size + l.stack_arg_size + 40 ≤ sp)
      ⊎ (sp ≤ base + 48)
    → Returns
        (emit_copy_args l.args none l.stack_return_size l.stack_return_padding l.stack_alignment
          l.stack_arg_size l.stack_arg_padding l.wrapper_stack_arg_size caller_pkey)
        (λ code.
          let t = run env code m in
          (t.reg rsp % 16 ≡ 0)
          × IsPassing m t sp
              (base + 56)
              (l.compartment_stack_space + l.stack_alignment)
              l.stack_return_size
              l.stack_arg_size)
emit_copy_args-IsPassing env m sig l sp base pkey e h word at off saved room fits bound apart =
    let laid = layout_of-IsLaidOut sig none l e in
    let own = layout_of-own_args sig l e in
    let passing =
      pass_on env m sp base l.stack_return_size l.stack_arg_size pkey h word at saved room fits
        bound apart in
    let which = (to_16 _ (stack_space-words l.stack_return_size l.stack_arg_size)).0 in
    rw (laid.alignment, laid.space, laid.arg_padding, laid.ret_padding, own)
      (rw
        (emit_copy_args-pieces l.args l.stack_return_size (return_padding l.stack_return_size) _
          l.stack_arg_size (padding_to 8 l.stack_arg_size) pkey which)
        (passing.passing_aligned off, passing))
