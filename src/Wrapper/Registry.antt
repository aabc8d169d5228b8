-- ===== src/Wrapper/Registry.antt =====
-- tools/rewriter/GenCallAsm.cpp, emit_type_registry_checks, with the signatures of
-- tools/rewriter/CAbi.h and the maps of tools/rewriter/Context.h.
use ia2_phase.Base.{
  List, Option, Bool, ℕ, if◌then◌else◌, some, ◌∷◌, [], ◌>>=◌, ◌+◌, get_elem?, none, ◌++◌, ◌*◌, not,
  true, leb, length, ◌-◌,
}
use Prim.Native.String.{String}
use ia2_phase.Asm.{Instr}
use ia2_phase.Abi.{AbiSignature}
use ia2_phase.Registers.{rsp, rdi, rsi, x86_int_param_reg_order}
use ia2_phase.Types
use ia2_phase.Types.{TypeInfoInterner}
use ia2_phase.Gate.Frame.{
  emit_save_args, emit_restore_args, emit_align_stack_8_to_16, emit_revert_align_stack_8_to_16,
  emit_direct_call,
}

-- A parameter or result: the name and the TypeId.
pub record Param : Type 0 where
  pub name : String
  pub type : ℕ

pub record ApiSignature : Type 0 where
  pub args : List Param
  pub ret : Param

pub record FnSignature : Type 0 where
  pub abi : AbiSignature
  pub api : ApiSignature
  pub variadic : Bool

-- The condition functions of each target, and the type that each structor function is for.
pub record Context : Type 0 where
  pub pre_condition_funcs : List (String × String)
  pub post_condition_funcs : List (String × String)
  pub types : TypeInfoInterner
  pub constructors : List (String × ℕ)
  pub destructors : List (String × ℕ)

-- The registry function, and the indices of the parameters that it is called on.
abbrev Checks : Type 0
Checks = String × List ℕ

-- `check` is for each of the first six parameters whose type has both structors.
unfoldable pub checked_indices : TypeInfoInterner → ℕ → List Param → Option (List ℕ)
unfolding Types.get Types.has_structors
checked_indices types i [] = some []
checked_indices types i (arg ∷ args) = do
  type ← Types.get types arg.type
  rest ← checked_indices types (i + 1) args
  some (
      if not (Types.has_structors type)
      then rest
      else if leb (length x86_int_param_reg_order) i
      then rest
      else i ∷ rest)

unfoldable pub registry_checks : Context → FnSignature → String → Option Checks
unfolding checked_indices Types.find
registry_checks ctx sig target =
    if Types.is_set (Types.find target ctx.constructors)
    then some ("ia2_type_registry_construct", 0 ∷ [])
    else if Types.is_set (Types.find target ctx.destructors)
    then some ("ia2_type_registry_destruct", 0 ∷ [])
    else (do
      indices ← checked_indices ctx.types 0 sig.api.args
      some ("ia2_type_registry_check", indices))

-- One call: the saved parameter is the first argument, its type's id the second.
unfoldable pub check_calls : Context → FnSignature → String → List ℕ → Option (List Instr)
unfolding Types.get emit_direct_call
check_calls ctx sig fn [] = some []
check_calls ctx sig fn (i ∷ is) = do
  arg ← get_elem? sig.api.args i
  type ← Types.get ctx.types arg.type
  rest ← check_calls ctx sig fn is
  some (
      Instr.load 8 (8 + 8 * (length x86_int_param_reg_order - 1 - i)) rsp rdi
      ∷ Instr.movq_imm type.id rsi
      ∷ (emit_direct_call fn ++ rest))

unfoldable pub emit_checks : Context → FnSignature → Checks → Option (List Instr)
unfolding check_calls emit_save_args emit_align_stack_8_to_16 emit_revert_align_stack_8_to_16
    emit_restore_args
emit_checks ctx sig (fn, []) = some []
emit_checks ctx sig (fn, i ∷ is) = do
  calls ← check_calls ctx sig fn (i ∷ is)
  some (
      emit_save_args
      ++ emit_align_stack_8_to_16
      ++ calls
      ++ emit_revert_align_stack_8_to_16
      ++ emit_restore_args true)

unfoldable pub emit_type_registry_checks :
    Context → FnSignature → Option String → Option (List Instr)
unfolding registry_checks emit_checks
emit_type_registry_checks ctx sig none = some []
emit_type_registry_checks ctx sig (some target) = do
  checks ← registry_checks ctx sig target
  emit_checks ctx sig checks
