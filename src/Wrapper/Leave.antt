-- ===== src/Wrapper/Leave.antt =====
-- The stages of the code that emit_asm_wrapper of tools/rewriter/GenCallAsm.cpp writes behind the
-- call, for results in registers.
use ia2_phase.Pkru.{emit_set_return_pkru, x86_emit_intermediate_pkru}
use ia2_phase.Asm.{Instr}
use ia2_phase.Registers.{rsp, Reg, reg_eq, rax, rdx}
use ia2_phase.Gate.Arguments.{emit_copy_stack_returns}
use ia2_phase.Asm.Machine.{run, exec, Env, Machine, update_reg_self, update_reg_other, run-append}
use ia2_phase.Base.{
  ℕ, All, Bool-cases, ◌==◌, List, inl, inr, ◌≡◌, ◌+◌, [], ◌<◌, false, u64, arith, refl, ◌++◌,
}
use ia2_phase.Wrapper.{leave, emit_post_conditions}
use ia2_phase.Wrapper.Sizes.{Layout}
use ia2_phase.Gate.Items.{SameRest}
use ia2_phase.Gate.Frame.{emit_free_stack_space, emit_return, emit_epilogue, emit_switch_stacks}
use ia2_phase.Asm.States.{IsPlain}

pub free_stack_space-effect :
    (env : Env) (n : ℕ) (m : Machine)
    → m.reg rsp + n < 18446744073709551616
    → let t = run env (emit_free_stack_space n) m in
      (t.reg rsp ≡ m.reg rsp + n)
      × ((r : Reg) → reg_eq r rsp ≡ false → t.reg r ≡ m.reg r)
      × SameRest m t
unfolding emit_free_stack_space run exec
free_stack_space-effect env n m h = elim (Bool-cases (n == 0)) [
  | inl none_left ↦ rw none_left (
    ground arith,
    (λ r e. refl),
    record { same_mem = refl; same_fs = refl; same_pkru = refl; same_trapped = refl },
  )
  | inr some_left ↦
      let sum : u64 (m.reg rsp + n) ≡ m.reg rsp + n = omega arith in
      rw (some_left, sum)
        (
          update_reg_self m.reg rsp (m.reg rsp + n),
          (λ r e. update_reg_other m.reg rsp r (m.reg rsp + n) e),
          record { same_mem = refl; same_fs = refl; same_pkru = refl; same_trapped = refl },
        )
]

pub free_stack_space-IsPlain : (n : ℕ) → All IsPlain (emit_free_stack_space n)
unfolding emit_free_stack_space
free_stack_space-IsPlain n = elim (Bool-cases (n == 0)) [ inl e ↦ rw e tt | inr e ↦ rw e (tt, tt) ]

run-nine :
    (env : Env) (a b c d e f g h i : List Instr) (m : Machine)
    → run env (a ++ b ++ c ++ d ++ e ++ f ++ g ++ h ++ i) m
      ≡ run env i (
          run env h
            (run env g (run env f (run env e (run env d (run env c (run env b (run env a m))))))))
run-nine env a b c d e f g h i m =
    rw
      (
        run-append, run-append, run-append, run-append, run-append, run-append, run-append,
        run-append,
      )
      refl

leave-pieces :
    (l : Layout) (scrub : List Instr) (caller target : ℕ)
    → leave l scrub [] caller target
      ≡ x86_emit_intermediate_pkru caller target rax rdx
        ++ emit_free_stack_space (u64 (l.stack_arg_size + l.stack_arg_padding + l.stack_alignment))
        ++ emit_copy_stack_returns l.stack_return_size l.stack_return_padding
        ++ emit_switch_stacks target caller
        ++ scrub
        ++ emit_set_return_pkru caller
        ++ []
        ++ emit_epilogue
        ++ emit_return
unfolding leave emit_post_conditions
leave-pieces l scrub caller target = refl

no_result : (padding : ℕ) → emit_copy_stack_returns 0 padding ≡ []
unfolding emit_copy_stack_returns
no_result padding = refl

run-return : (env : Env) (m : Machine) → run env emit_return m ≡ m
unfolding emit_return run exec
run-return env m = refl

pub leave-run :
    (env : Env) (l : Layout) (scrub : List Instr) (caller target : ℕ) (u : Machine)
    → l.stack_return_size ≡ 0
    → run env (leave l scrub [] caller target) u
      ≡ run env emit_epilogue (
          run env (emit_set_return_pkru caller) (
            run env scrub (
              run env (emit_switch_stacks target caller) (
                run env
                  (emit_free_stack_space
                    (u64 (l.stack_arg_size + l.stack_arg_padding + l.stack_alignment)))
                  (run env (x86_emit_intermediate_pkru caller target rax rdx) u)))))
unfolding run
leave-run env l scrub caller target u e =
    rw
      (
        leave-pieces l scrub caller target,
        run-nine env (x86_emit_intermediate_pkru caller target rax rdx)
            (emit_free_stack_space
              (u64 (l.stack_arg_size + l.stack_arg_padding + l.stack_alignment)))
            (emit_copy_stack_returns l.stack_return_size l.stack_return_padding)
            (emit_switch_stacks target caller) scrub (emit_set_return_pkru caller) [] emit_epilogue
            emit_return u,
        e,
        no_result l.stack_return_padding,
        run-return env,
      )
      refl
