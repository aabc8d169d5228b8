-- ===== src/Tests/Classification.antt =====
-- The signature of a function that takes a struct of a long and a double, a double and a large
-- struct, and returns an `__int128`.
use ia2_phase.Abi.{Arch}
use ia2_phase.DetermineAbi.{LlvmType, AbiArgInfo, QualType, CgFunctionInfo, InfoKind, CoerceType}
use ia2_phase.Types.Interner.{empty, empty-IsInterner}
use ia2_phase.DetermineAbi.Api.{TypeNames, FunctionDecl, determine_fn_signature_for_decl}
use ia2_phase.DetermineAbi.Signature.{IsReady, determine_fn_signature_for_decl-IsReady}
use ia2_phase.DetermineAbi.{CallingConv}
use ia2_phase.Wrapper.Registry.{Context}
use Prim.Native.String.{String}
use ia2_phase.Base.{ℕ, ◌∷◌, [], true, false, refl, inl, inr, Returns, arith}

abbrev int_type : ℕ → LlvmType
int_type bits = record {
  scalar_size_in_bits = bits;
  is_floating_point = false;
  is_int_or_ptr = true;
}

abbrev double_type : LlvmType
double_type = record { scalar_size_in_bits = 64; is_floating_point = true; is_int_or_ptr = false }

abbrev direct_as : CoerceType → AbiArgInfo
direct_as ty = record { kind = InfoKind.direct; coerce_to = ty; can_be_flattened = true }

abbrev qual_type : ℕ → QualType
qual_type n = record { size = n; align = 8 }

abbrev by_reference : AbiArgInfo
by_reference = record {
  kind = InfoKind.indirect;
  coerce_to = CoerceType.scalar (int_type 64);
  can_be_flattened = false;
}

abbrev function_info : CgFunctionInfo
function_info = record {
  return_type = qual_type 16;
  return_info = direct_as (CoerceType.scalar (int_type 128));
  arguments =
      (qual_type 16, direct_as (CoerceType.struct (int_type 64 ∷ double_type ∷ [])))
      ∷ (qual_type 8, direct_as (CoerceType.scalar double_type))
      ∷ (qual_type 40, by_reference)
      ∷ [];
}

abbrev type_names : String → TypeNames
type_names name = record { canonical_name = name; name = name }

abbrev declaration : FunctionDecl
declaration = record {
  info = function_info;
  convention = CallingConv.cc_c;
  parameters =
      ("pair", type_names "struct pair")
      ∷ ("d", type_names "double")
      ∷ ("big", type_names "struct big")
      ∷ [];
  return_type = type_names "__int128";
  is_variadic = false;
}

-- `init` was annotated as the constructor of some type.
abbrev context : Context
context = record {
  pre_condition_funcs = [];
  post_condition_funcs = [];
  types = empty;
  constructors = ("init", 0) ∷ [];
  destructors = [];
}

determine_fn_signature_for_decl-IsReady_example :
    Returns
      (determine_fn_signature_for_decl declaration empty)
      (IsReady declaration Arch.x86 context "init")
unfolding empty
determine_fn_signature_for_decl-IsReady_example =
    determine_fn_signature_for_decl-IsReady declaration Arch.x86 context "init" refl
      (inr (refl, refl, inr refl))
      ((refl, (inr (refl, refl, inl (omega arith)), (inl refl, tt))), (inl refl, (refl, tt)))
      empty-IsInterner (omega arith)
      (record { constructs = λ e. omega arith; destructs = λ e. omega arith })
