-- ===== src/Wrapper/Reserve.antt =====
-- The space that emit_copy_args of tools/rewriter/GenCallAsm.cpp reserves on the target's stack for a
-- result in memory.
use ia2_phase.Gate.Items.{SameRest}
use ia2_phase.Asm.{Instr}
use ia2_phase.Wrapper.Sizes.{return_padding}
use ia2_phase.Asm.Memory.{
  IsBytes, FitsIn, load-store_bytes, store_bytes-outside, store_bytes-IsBytes,
}
use ia2_phase.Registers.{rsp, reg_eq, rdi, Reg, reg_eq_comm}
use ia2_phase.Base.{
  ℕ, ◌≡◌, ◌-◌, ◌+◌, ◌≤◌, ◌<◌, ltb, ◌⊎◌, true, u64, arith, refl, if◌then◌else◌, Bool-cases, inl,
  subst, inr, List, false, ◌==◌, [], ◌∷◌,
}
use ia2_phase.Asm.Machine.{
  run, Machine, exec, update_reg, Env, load_bytes, sub64, update_reg_self, update_reg_other,
}
use ia2_phase.Wrapper.Alignment.{return_padding_lt, return_padding_zero}
use ia2_phase.Gate.Arguments.{allocate_return}

-- Space of `size` bytes for a result, and the caller's address for it in the word below.
pub record IsReserved (m t : Machine) (sp start size : ℕ) : Type 0 where
  pub reserved_sp : t.reg rsp ≡ sp - (start + size)
  pub reserved_rdi : start ≡ 8 → t.reg rdi ≡ sp - size
  pub reserved_word : start ≡ 8 → load_bytes 8 t.mem (sp - size - 8) ≡ m.reg rdi
  pub reserved_outside : (b : ℕ) → (b < sp - (start + size)) ⊎ (sp ≤ b) → t.mem b ≡ m.mem b
  pub reserved_kept : start ≡ 0 → t.reg rdi ≡ m.reg rdi
  pub reserved_regs : (r : Reg) → reg_eq r rsp ≡ false → reg_eq r rdi ≡ false → t.reg r ≡ m.reg r
  pub reserved_bytes : IsBytes t.mem
  pub reserved_fs : t.fs ≡ m.fs
  pub reserved_pkru : t.pkru ≡ m.pkru
  pub reserved_trapped : t.trapped ≡ m.trapped

allocate_return-IsReserved :
    (env : Env) (m : Machine) (sp ret padding : ℕ)
    → IsBytes m.mem
    → FitsIn 8 (m.reg rdi)
    → m.reg rsp ≡ sp
    → ret + padding + 8 ≤ sp
    → sp < 18446744073709551616
    → ltb 0 ret ≡ true
    → IsReserved m (run env (allocate_return ret padding) m) sp 8 (ret + padding)
unfolding allocate_return run exec update_reg reg_eq
allocate_return-IsReserved env m sp ret padding h word at room fits some_ret =
    let R = ret + padding in
    let down : sub64 (m.reg rsp) (u64 R) ≡ sp - R = omega arith in
    let below : sub64 (sp - R) 8 ≡ sp - R - 8 = omega arith in
    rw some_ret (
      rw (down, below)
        (record {
          reserved_sp = omega arith;
          reserved_rdi = λ e. omega arith;
          reserved_word = λ e. load-store_bytes 8 m.mem (sp - R - 8) (m.reg rdi) word;
          reserved_outside =
              λ b e. store_bytes-outside 8 m.mem (sp - R - 8) (m.reg rdi) b (omega arith);
          reserved_kept = λ e. absurd (omega arith);
          reserved_regs = λ r e f. ground (arith, reg_eq_comm r rsp, reg_eq_comm r rdi);
          reserved_bytes = store_bytes-IsBytes 8 m.mem (sp - R - 8) (m.reg rdi) h;
          reserved_fs = refl;
          reserved_pkru = refl;
          reserved_trapped = refl;
        }))

-- The word that the caller's address takes.
abbrev pub pointer_size : ℕ → ℕ
pointer_size ret = if ltb 0 ret then 8 else 0

pub reserve :
    (env : Env) (m : Machine) (sp ret : ℕ)
    → IsBytes m.mem
    → FitsIn 8 (m.reg rdi)
    → m.reg rsp ≡ sp
    → ret + 24 ≤ sp
    → sp < 18446744073709551616
    → IsReserved m
        (run env (allocate_return ret (return_padding ret)) m)
        sp
        (pointer_size ret)
        (ret + return_padding ret)
unfolding allocate_return run
reserve env m sp ret h word at room fits = elim (Bool-cases (ltb 0 ret)) [
  | inl some_ret ↦
      let small : return_padding ret < 16 = return_padding_lt ret in
      let reserved =
        allocate_return-IsReserved env m sp ret (return_padding ret) h word at (omega arith) fits
          some_ret in
      subst
        (λ k.
          IsReserved m (run env (allocate_return ret (return_padding ret)) m) sp k
            (ret + return_padding ret))
        (rw some_ret refl) reserved
  | inr no_ret ↦
      let none_left : ret + return_padding ret ≡ 0 = return_padding_zero ret no_ret in
      rw (no_ret, none_left)
        (record {
          reserved_sp = omega arith;
          reserved_rdi = λ e. absurd (omega arith);
          reserved_word = λ e. absurd (omega arith);
          reserved_outside = λ b e. refl;
          reserved_kept = λ e. refl;
          reserved_regs = λ r e f. refl;
          reserved_bytes = h;
          reserved_fs = refl;
          reserved_pkru = refl;
          reserved_trapped = refl;
        })
]

unfoldable pub gap : ℕ → List Instr
gap align = if align == 0 then [] else Instr.subq 8 rsp ∷ []

pub gap-effect :
    (env : Env) (m : Machine) (sp align : ℕ)
    → (align ≡ 0) ⊎ (align ≡ 8)
    → m.reg rsp ≡ sp
    → align ≤ sp
    → sp < 18446744073709551616
    → let t = run env (gap align) m in
      (t.reg rsp ≡ sp - align)
      × ((r : Reg) → reg_eq r rsp ≡ false → t.reg r ≡ m.reg r)
      × SameRest m t
unfolding gap run exec
gap-effect env m sp align (inl none_left) at room fits = rw none_left (
  omega arith,
  (λ r e. refl),
  record { same_mem = refl; same_fs = refl; same_pkru = refl; same_trapped = refl },
)
gap-effect env m sp align (inr word) at room fits =
    let down : sub64 (m.reg rsp) 8 ≡ sp - 8 = omega arith in
    rw (word, down)
      (
        update_reg_self m.reg rsp (sp - 8),
        (λ r e. update_reg_other m.reg rsp r (sp - 8) e),
        record { same_mem = refl; same_fs = refl; same_pkru = refl; same_trapped = refl },
      )
