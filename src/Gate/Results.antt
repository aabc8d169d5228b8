-- ===== src/Gate/Results.antt =====
-- A result in memory: the code that copies it from the target's stack to the caller.
use ia2_phase.Memcpy.{emit_memcpy}
use ia2_phase.Asm.{Instr}
use ia2_phase.Asm.Memory.{IsBytes}
use ia2_phase.Base.{
  ℕ, ◌<◌, ◌≡◌, ◌+◌, ◌≤◌, ◌⊎◌, false, ltb, true, arith, u64, ◌∙◌, ap₂, refl, ◌∷◌, [],
}
use ia2_phase.Registers.{reg_eq, rsp, rax, Reg, r10}
use ia2_phase.Asm.Machine.{
  run, exec, update_reg, Env, Machine, load_bytes, run-append, update_reg_other,
}
use ia2_phase.Gate.Arguments.{emit_copy_stack_returns}
use ia2_phase.Memcpy.Copies.{emit_memcpy-IsCopied, IsCopied, copied}

copy_stack_returns-run :
    (env : Env) (m : Machine) (size padding : ℕ)
    → ltb 0 size ≡ true
    → run env (emit_copy_stack_returns size padding) m
      ≡ exec env
          (Instr.addq (u64 (size + padding)) rsp)
          (run env (emit_memcpy size rax rsp r10 0) (exec env (Instr.popq rax) m))
unfolding emit_copy_stack_returns run
copy_stack_returns-run env m size padding h = rw h (
    run-append env (emit_memcpy size rax rsp r10 0) (Instr.addq (u64 (size + padding)) rsp ∷ [])
      (exec env (Instr.popq rax) m))

-- Below a result of `size` bytes in memory lies the address `dst` that the caller gave for it: the
-- code copies all bytes of the result there and returns that address in rax, frees the result and
-- its padding, and changes no other memory, no register but rax, r10 and rsp, and not PKRU. The
-- result and its destination are apart and within 64 bits.
pub emit_copy_stack_returns_copies :
    (env : Env) (m : Machine) (sp dst size padding : ℕ)
    → IsBytes m.mem
    → 0 < size
    → m.reg rsp ≡ sp
    → load_bytes 8 m.mem sp ≡ dst
    → sp + 8 + size + padding < 18446744073709551616
    → dst + size < 18446744073709551616
    → (dst + size ≤ sp + 8) ⊎ (sp + 8 + size ≤ dst)
    → let t = run env (emit_copy_stack_returns size padding) m in
      (t.mem ≡ copied m.mem dst (sp + 8) size)
      × (t.reg rax ≡ dst)
      × (t.reg rsp ≡ sp + 8 + size + padding)
      × ((r : Reg)
          → reg_eq r rsp ≡ false
          → reg_eq r rax ≡ false
          → reg_eq r r10 ≡ false
          → t.reg r ≡ m.reg r)
      × (t.fs ≡ m.fs)
      × (t.pkru ≡ m.pkru)
unfolding exec update_reg reg_eq
emit_copy_stack_returns_copies env m sp dst size padding h some_bytes at word room fits apart =
    let test : ltb 0 size ≡ true = ground arith in
    let m1 = exec env (Instr.popq rax) m in
    let up : u64 (m.reg rsp + 8) ≡ sp + 8 = omega arith in
    let rax_at : m1.reg rax ≡ dst = rw at word in
    let rsp_at : m1.reg rsp ≡ sp + 8 = up in
    let c : IsCopied env rax rsp r10 0 size m1 size (run env (emit_memcpy size rax rsp r10 0) m1) =
      emit_memcpy-IsCopied env rax rsp r10 0 size m1 (record {
        bytes = h;
        apart = omega arith;
        dst_bound = omega arith;
        src_bound = omega arith;
        dst_scratch = refl;
        src_scratch = refl;
      }) in
    rw (copy_stack_returns-run env m size padding test) (
      c.mem_copied ∙ ap₂ (λ x y. copied m.mem x y size) rax_at (omega arith),
      c.regs_kept rax refl ∙ rax_at,
      omega (arith, c.regs_kept rsp refl),
      (λ r e f g.
          update_reg_other (run env (emit_memcpy size rax rsp r10 0) m1).reg rsp r _ e
          ∙ c.regs_kept r g
          ∙ update_reg_other (update_reg m.reg rsp (u64 (m.reg rsp + 8))) rax r _ f
          ∙ update_reg_other m.reg rsp r _ e),
      c.fs_kept,
      c.pkru_kept,
    )
