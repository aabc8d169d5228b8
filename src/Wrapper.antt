-- ===== src/Wrapper.antt =====
-- tools/rewriter/GenCallAsm.cpp: emit_asm_wrapper for x86-64, with the type registry checks and the
-- condition functions of tools/rewriter/Context.h.
use ia2_phase.Wrapper.Registry.{FnSignature, emit_type_registry_checks, Context}
use ia2_phase.Pkru.{x86_emit_intermediate_pkru, pkru_value, emit_set_pkru, emit_set_return_pkru}
use ia2_phase.Gate.Frame.{
  emit_save_args, emit_direct_call, emit_prologue, emit_restore_args, emit_free_stack_space,
  emit_align_stack_8_to_16, emit_condition_fn_call, emit_switch_stacks,
  emit_revert_align_stack_8_to_16, emit_epilogue, emit_return,
}
use ia2_phase.Wrapper.Sizes.{layout_of, Layout}
use ia2_phase.Gate.Frame
use ia2_phase.Base.{
  Option, List, some, ◌∷◌, [], if◌then◌else◌, none, Bool, true, ltb, length, ◌&&◌, false, ◌||◌,
  ◌++◌, not, ℕ, ◌>>◌, assert, u64, ◌==◌, ◌+◌, ◌>>=◌,
}
pub mod Registry
pub mod Checked
pub mod Sizes
pub mod Alignment
pub mod Reserve
pub mod Passing
pub mod Entry
pub mod Plain
pub mod Call
pub mod Leave
pub mod Return
use Prim.Native.String.{String}
use text.Mathlib.Text.{◌==◌ as str_eq}
use ia2_phase.Asm.{Instr}
use ia2_phase.Abi
use ia2_phase.Abi.{Arch, ArgLocation, AbiSignature}
use ia2_phase.Registers.{Reg, rcx, rdx, rax, r12}
use ia2_phase.Gate.Scrub.{emit_scrub_regs}
use ia2_phase.Gate.Arguments.{emit_copy_args, emit_copy_stack_returns}

abbrev abi_of : Option FnSignature → Option AbiSignature
abi_of none = none
abi_of (some f) = some f.abi

pub data WrapperKind : Type 0 where
  direct pointer pointer_to_static indirect_callsite : WrapperKind

-- The condition functions of a target, in the order in which the map gives them.
unfoldable pub conditions : String → List (String × String) → List String
conditions target [] = []
conditions target ((k, f) ∷ rest) =
    let others = conditions target rest in if str_eq k target then f ∷ others else others

unfoldable pub emit_fn_call : Option String → WrapperKind → Option (List Instr)
unfolding emit_direct_call
emit_fn_call none WrapperKind.indirect_callsite = some (Instr.call_reg r12 ∷ [])
emit_fn_call none _ = none
emit_fn_call (some name) kind = some (emit_direct_call name)

abbrev pub is_empty : List String → Bool
is_empty [] = true
is_empty (x ∷ xs) = false

-- The calls of the pre-condition functions after the first: each restores the saved arguments, and
-- the last pops them if no post-condition needs them.
unfoldable pub pre_calls : Bool → List String → List Instr
unfolding emit_restore_args emit_condition_fn_call
pre_calls no_post [] = []
pre_calls no_post (f ∷ fs) =
    emit_restore_args (no_post && is_empty fs) ++ emit_condition_fn_call f ++ pre_calls no_post fs

-- The first pre-condition function finds the arguments in their registers.
unfoldable pub emit_pre_conditions : List String → List String → List Instr
unfolding emit_save_args pre_calls
emit_pre_conditions pre post =
    let save = if ltb 1 (length pre) || not (is_empty post) then emit_save_args else [] in
    let calls : List Instr = elim pre [
      | [] ↦ []
      | f ∷ fs ↦ emit_condition_fn_call f ++ pre_calls (is_empty post) fs
    ] in
    save ++ calls

unfoldable pub emit_post_conditions : List String → List Instr
unfolding emit_restore_args emit_align_stack_8_to_16 emit_condition_fn_call
    emit_revert_align_stack_8_to_16
emit_post_conditions [] = []
emit_post_conditions (f ∷ fs) =
    emit_restore_args (is_empty fs)
    ++ emit_align_stack_8_to_16
    ++ emit_condition_fn_call f
    ++ emit_revert_align_stack_8_to_16
    ++ emit_post_conditions fs

abbrev pub symbol_line : WrapperKind → String → Instr
symbol_line WrapperKind.pointer_to_static wrapper_name = Instr.local wrapper_name
symbol_line _ wrapper_name = Instr.global wrapper_name

abbrev pub is_indirect_callsite : WrapperKind → Bool
is_indirect_callsite WrapperKind.indirect_callsite = true
is_indirect_callsite _ = false

-- The code from the entry of the wrapper to the switch to the target's stack.
unfoldable pub enter : List Instr → List String → List String → ℕ → ℕ → List Instr
unfolding emit_prologue emit_pre_conditions x86_emit_intermediate_pkru emit_switch_stacks
enter checks pre post caller_pkey target_pkey =
    emit_prologue
    ++ checks
    ++ emit_pre_conditions pre post
    ++ Instr.assert_pkru (pkru_value caller_pkey)
      ∷ (x86_emit_intermediate_pkru caller_pkey target_pkey rcx rdx
          ++ emit_switch_stacks caller_pkey target_pkey)

-- The code from the return of the target to the end of the wrapper.
unfoldable pub leave : Layout → List Instr → List String → ℕ → ℕ → List Instr
unfolding x86_emit_intermediate_pkru emit_free_stack_space emit_copy_stack_returns
    emit_switch_stacks emit_set_return_pkru emit_post_conditions emit_epilogue emit_return
leave l scrub post caller_pkey target_pkey =
    x86_emit_intermediate_pkru caller_pkey target_pkey rax rdx
    ++ emit_free_stack_space (u64 (l.stack_arg_size + l.stack_arg_padding + l.stack_alignment))
    ++ emit_copy_stack_returns l.stack_return_size l.stack_return_padding
    ++ emit_switch_stacks target_pkey caller_pkey
    ++ scrub
    ++ emit_set_return_pkru caller_pkey
    ++ emit_post_conditions post
    ++ emit_epilogue
    ++ emit_return

-- The code up to the call of the target.
unfoldable pub before_call :
    Layout → List Instr → List String → List String → Bool → ℕ → ℕ → Option (List Instr)
unfolding enter emit_copy_args emit_scrub_regs emit_set_pkru
before_call l checks pre post indirect caller_pkey target_pkey = do
  copy ←
      emit_copy_args l.args l.wrapper_args l.stack_return_size l.stack_return_padding
        l.stack_alignment l.stack_arg_size l.stack_arg_padding l.wrapper_stack_arg_size caller_pkey
  scrub ← emit_scrub_regs caller_pkey l.args indirect
  some (
      enter checks pre post caller_pkey target_pkey
      ++ copy
      ++ scrub
      ++ emit_set_pkru false target_pkey none)

abbrev pub condition_list : Option String → List (String × String) → List String
condition_list none funcs = []
condition_list (some target) funcs = conditions target funcs

unfoldable pub emit_asm_wrapper :
    Context
    → FnSignature
    → Option FnSignature
    → String
    → Option String
    → WrapperKind
    → ℕ
    → ℕ
    → Option (List Instr)
unfolding layout_of emit_type_registry_checks before_call leave emit_scrub_regs emit_fn_call
    conditions
emit_asm_wrapper ctx sig wrapper_sig wrapper_name target_name kind caller_pkey target_pkey = do
  assert (not (caller_pkey == target_pkey))
  l ← layout_of sig.abi (abi_of wrapper_sig)
  checks ← emit_type_registry_checks ctx sig target_name
  let pre = condition_list target_name ctx.pre_condition_funcs
  let post = condition_list target_name ctx.post_condition_funcs
  before ← before_call l checks pre post (is_indirect_callsite kind) caller_pkey target_pkey
  call ← emit_fn_call target_name kind
  scrub_rets ← emit_scrub_regs target_pkey l.rets false
  some (
      Instr.text
      ∷ symbol_line kind wrapper_name
      ∷ Instr.type_function wrapper_name
      ∷ Instr.label wrapper_name
      ∷ (before
          ++ call
          ++ leave l scrub_rets post caller_pkey target_pkey
          ++ Instr.size_of wrapper_name ∷ Instr.previous ∷ []))
