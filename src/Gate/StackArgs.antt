-- ===== src/Gate/StackArgs.antt =====
-- The stack arguments: the code that copies them from the caller's stack to the target's.
use ia2_phase.Gate.Pushes.{push_loop-IsPushed}
use ia2_phase.Gate.Items.{SameRest}
use ia2_phase.Gate.Frame.{emit_load_sp_offset}
use ia2_phase.Asm.{Instr}
use ia2_phase.Registers.{rsp, rax, Reg, reg_eq, r12}
use ia2_phase.Asm.Memory.{IsBytes}
use ia2_phase.Base.{
  ℕ, ◌≡◌, ◌-◌, ◌*◌, ◌≤◌, ◌<◌, ◌+◌, false, ◌⊎◌, arith, u64, ◌∙◌, refl, ltb, true, Bool-cases, [],
  inl, ap, inr, ◌∷◌,
}
use ia2_phase.Asm.Machine.{Machine, exec, Env, update_reg_other, run, update_reg}
use ia2_phase.Base.{ltb}
use ia2_phase.Gate.Arguments.{push_loop, copy_stack_args, frame_size}

-- Behind the load of the caller's stack pointer into rax.
abbrev loaded : Env → Machine → ℕ → Machine
loaded env m caller_pkey =
    run env (Instr.gottpoff caller_pkey r12 ∷ Instr.movq_fs_load r12 rax ∷ []) m

loaded-kept :
    (env : Env) (m : Machine) (caller_pkey : ℕ)
    → let l = loaded env m caller_pkey in
      (l.reg rax ≡ m.fs (env.tpoff caller_pkey))
      × ((r : Reg) → reg_eq r rax ≡ false → reg_eq r r12 ≡ false → l.reg r ≡ m.reg r)
      × SameRest m l
unfolding run exec reg_eq update_reg
loaded-kept env m pkey = (
  refl,
  (λ r a b. ground (
    arith,
    update_reg_other (update_reg m.reg r12 (env.tpoff pkey)) rax r _ a,
    update_reg_other m.reg r12 r (env.tpoff pkey) b,
  )),
  record { same_mem = refl; same_fs = refl; same_pkru = refl; same_trapped = refl },
)

copy_stack_args-run :
    (env : Env) (m : Machine) (size padding wrapper_size caller_pkey offset : ℕ)
    → ltb 0 size ≡ true
    → u64 (size + padding + frame_size + (wrapper_size + 18446744073709551616 - size)) ≡ offset
    → run env (copy_stack_args size padding wrapper_size caller_pkey) m
      ≡ run env (push_loop size 0 size offset) (loaded env m caller_pkey)
unfolding copy_stack_args emit_load_sp_offset run
copy_stack_args-run env m size padding wrapper_size caller_pkey offset h e = rw (h, e) refl

-- `n` words from `src` on are on top of the stack, which was at `sp`; rsp, rax and r12 may have
-- changed besides.
pub record AreCopied (m t : Machine) (sp src n : ℕ) : Type 0 where
  pub copied_sp : t.reg rsp ≡ sp - 8 * n
  pub copied_bytes : (b : ℕ) → b < 8 * n → t.mem (sp - 8 * n + b) ≡ m.mem (src + b)
  pub copied_outside : (b : ℕ) → (b < sp - 8 * n) ⊎ (sp ≤ b) → t.mem b ≡ m.mem b
  pub copied_regs :
      (r : Reg)
      → reg_eq r rsp ≡ false
      → reg_eq r rax ≡ false
      → reg_eq r r12 ≡ false
      → t.reg r ≡ m.reg r
  pub copied_fs : t.fs ≡ m.fs
  pub copied_pkru : t.pkru ≡ m.pkru
  pub copied_trapped : t.trapped ≡ m.trapped

-- With a stack pointer saved for the caller's compartment at `base`, the code copies every byte of
-- the stack arguments, `size` bytes padded to `n` words, from behind the frame of 48 bytes and the
-- return address to the top of the target's stack at `sp`. Where the wrapper itself has more stack
-- arguments than the target, the target's are the last of them. Only rsp, rax and r12 change, and
-- no memory outside the words pushed. The two stacks are apart and within 64 bits.
pub copy_stack_args-AreCopied :
    (env : Env) (m : Machine) (sp base size padding wrapper_size n caller_pkey : ℕ)
    → IsBytes m.mem
    → m.reg rsp ≡ sp
    → m.fs (env.tpoff caller_pkey) ≡ base
    → size + padding ≡ 8 * n
    → padding < 8
    → size ≤ wrapper_size
    → 8 * n ≤ sp
    → sp < 18446744073709551616
    → base + wrapper_size + 64 < 18446744073709551616
    → (base + wrapper_size + 64 ≤ sp - 8 * n) ⊎ (sp ≤ base + 48)
    → AreCopied m
        (run env (copy_stack_args size padding wrapper_size caller_pkey) m)
        sp
        (base + 56 + (wrapper_size - size))
        n
unfolding copy_stack_args run reg_eq
copy_stack_args-AreCopied env m sp base size padding wrapper_size n pkey h at saved words pad le
      room fits bound apart =
    elim (Bool-cases (ltb 0 size)) [
      | inl some_args ↦
          let offset = padding + 48 + wrapper_size in
          let index : u64
                (size + padding + frame_size + (wrapper_size + 18446744073709551616 - size))
              ≡ offset =
            omega arith in
          let l = loaded env m pkey in
          let (from, kept, rest) = loaded-kept env m pkey in
          let p =
            push_loop-IsPushed env size 0 size offset n l sp base (ground arith) (omega arith)
              (omega arith) (omega arith) (λ a. rw rest.same_mem (h a)) (kept rsp refl refl ∙ at)
              (from ∙ saved) room fits (omega arith) (omega arith) in
          let source : (b : ℕ)
              → base + (offset + 8 - 0) - 8 * n + b ≡ base + 56 + (wrapper_size - size) + b =
            λ b. omega arith in
          rw (copy_stack_args-run env m size padding wrapper_size pkey offset some_args index)
            (record {
              copied_sp = p.pushed_sp;
              copied_bytes =
                  λ b k. p.pushed_bytes b k ∙ ap l.mem (source b) ∙ rw rest.same_mem refl;
              copied_outside = λ b k. p.pushed_outside b k ∙ rw rest.same_mem refl;
              copied_regs = λ r e f g. p.pushed_regs r e ∙ kept r f g;
              copied_fs = p.pushed_fs ∙ rest.same_fs;
              copied_pkru = p.pushed_pkru ∙ rest.same_pkru;
              copied_trapped = p.pushed_trapped ∙ rest.same_trapped;
            })
      | inr no_args ↦
          let none_left : n ≡ 0 = ground arith in
          rw no_args (record {
            copied_sp = omega arith;
            copied_bytes = λ b k. absurd (omega arith);
            copied_outside = λ b k. refl;
            copied_regs = λ r e f g. refl;
            copied_fs = refl;
            copied_pkru = refl;
            copied_trapped = refl;
          })
    ]
