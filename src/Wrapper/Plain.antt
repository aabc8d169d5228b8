-- ===== src/Wrapper/Plain.antt =====
-- The code up to the scrubbing of the registers keeps the widths of all registers.
use ia2_phase.Pkru.{x86_emit_intermediate_pkru, emit_mixed_wrpkru, load_pkru, mixed_pkru_value}
use ia2_phase.Registers.{is_vector}
use ia2_phase.Gate.Frame.{emit_load_sp_offset, emit_prologue, push_all, emit_switch_stacks}
use ia2_phase.Wrapper.{enter, emit_pre_conditions, pre_calls}
use ia2_phase.Wrapper.Reserve.{gap}
use ia2_phase.Gate.Arguments.{allocate_return, copy_stack_args, push_loop}
use ia2_phase.Asm.States.{IsPlain}
use ia2_phase.Base.{
  All-append, Bool-cases, ℕ, All, ◌++◌, suc, ltb, [], inl, inr, ◌+◌, zero, refl, ◌==◌, arith, ◌<◌,
}

pub mixed_pkru_value-lt : (a b : ℕ) → mixed_pkru_value a b < 4294967296
unfolding mixed_pkru_value
mixed_pkru_value-lt a b = omega arith

pub enter-IsPlain : (caller target : ℕ) → All IsPlain (enter [] [] [] caller target)
unfolding enter emit_prologue push_all emit_pre_conditions pre_calls x86_emit_intermediate_pkru
    emit_mixed_wrpkru emit_switch_stacks emit_load_sp_offset is_vector load_pkru
enter-IsPlain caller target = ground (arith, mixed_pkru_value-lt caller target)

allocate_return-IsPlain : (ret padding : ℕ) → All IsPlain (allocate_return ret padding)
unfolding allocate_return is_vector
allocate_return-IsPlain ret padding = elim (Bool-cases (ltb 0 ret)) [
  | inl e ↦ rw e (tt, (refl, (tt, (tt, tt))))
  | inr e ↦ rw e tt
]

gap-IsPlain : (align : ℕ) → All IsPlain (gap align)
unfolding gap
gap-IsPlain align = elim (Bool-cases (align == 0)) [ inl e ↦ rw e tt | inr e ↦ rw e (tt, tt) ]

push_loop-IsPlain : (fuel i size offset : ℕ) → All IsPlain (push_loop fuel i size offset)
unfolding push_loop
push_loop-IsPlain zero i size offset = tt
push_loop-IsPlain (suc fuel) i size offset = elim (Bool-cases (ltb i size)) [
  | inl e ↦ rw e (tt, push_loop-IsPlain fuel (i + 8) size offset)
  | inr e ↦ rw e tt
]

copy_stack_args-IsPlain :
    (size padding wrapper_size pkey : ℕ)
    → All IsPlain (copy_stack_args size padding wrapper_size pkey)
unfolding copy_stack_args emit_load_sp_offset
copy_stack_args-IsPlain size padding wrapper_size pkey = elim (Bool-cases (ltb 0 size)) [
  | inl e ↦ rw e (tt, (tt, push_loop-IsPlain size 0 size _))
  | inr e ↦ rw e tt
]

pub copy-IsPlain :
    (ret ret_padding align arg arg_padding pkey : ℕ)
    → All IsPlain (
        allocate_return ret ret_padding
        ++ gap align
        ++ copy_stack_args arg arg_padding arg pkey
        ++ [])
copy-IsPlain ret ret_padding align arg arg_padding pkey =
    let first = allocate_return ret ret_padding in
    let last = copy_stack_args arg arg_padding arg pkey in
    let two =
      All-append IsPlain first (gap align) (allocate_return-IsPlain ret ret_padding)
        (gap-IsPlain align) in
    let three =
      All-append IsPlain (first ++ gap align) last two
        (copy_stack_args-IsPlain arg arg_padding arg pkey) in
    All-append IsPlain (first ++ gap align ++ last) [] three tt
