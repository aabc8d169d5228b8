-- ===== src/DetermineAbi/Api.antt =====
-- tools/rewriter/DetermineAbi.cpp: the parameters of a function as the registry of types sees them,
-- and the whole signature. The names of a clang type are an argument.
use ia2_phase.DetermineAbi.{
  CgFunctionInfo, CallingConv, determine_abi_signature_for_decl, determine_abi_signature,
}
use ia2_phase.Types.{TypeInfoInterner, intern_from_strings}
use ia2_phase.Wrapper.Registry.{Param, ApiSignature, FnSignature}
use ia2_phase.Base.{
  ℕ, Bool, List, Option, some, [], ◌∷◌, ◌+◌, ◌/◌, ◌%◌, ltb, if◌then◌else◌, ◌>>=◌, zero, suc,
}
use Prim.Native.String.{String, slice, ◌++◌ as str_append}

-- A type, as `to_string` of its canonical and of its written form.
pub record TypeNames : Type 0 where
  pub canonical_name : String
  pub name : String

unfoldable pub intern : TypeNames → TypeInfoInterner → TypeInfoInterner × ℕ
unfolding intern_from_strings
intern type s = intern_from_strings type.canonical_name type.name s

-- The loop over the parameters, each with its name.
unfoldable pub intern_params :
    List (String × TypeNames) → TypeInfoInterner → TypeInfoInterner × List Param
unfolding intern
intern_params [] s = (s, [])
intern_params ((name, type) ∷ params) s =
    let (s', id) = intern type s in
    let (s'', args) = intern_params params s' in (s'', record { name = name; type = id } ∷ args)

unfoldable pub determine_api_signature_for_decl :
    List (String × TypeNames) → TypeNames → TypeInfoInterner → TypeInfoInterner × ApiSignature
unfolding intern intern_params
determine_api_signature_for_decl parameters return_type s =
    let (s', args) = intern_params parameters s in
    let (s'', ret) = intern return_type s' in
    (s'', record { args = args; ret = record { name = "return"; type = ret } })

abbrev digit : ℕ → String
digit n = slice "0123456789" n (n + 1)

-- `std::to_string`. The fuel is more than the number of digits.
unfoldable pub to_string_fuel : ℕ → ℕ → String
to_string_fuel zero n = ""
to_string_fuel (suc fuel) n =
    let front = to_string_fuel fuel (n / 10) in
    if ltb n 10 then digit n else str_append front (digit (n % 10))

abbrev to_string : ℕ → String
unfolding to_string_fuel
to_string n = to_string_fuel (suc n) n

-- A function type has no parameter names.
unfoldable pub arg_names : ℕ → List TypeNames → List (String × TypeNames)
unfolding to_string
arg_names i [] = []
arg_names i (type ∷ types) = (str_append "arg_" (to_string i), type) ∷ arg_names (i + 1) types

unfoldable pub determine_api_signature_for_proto_type :
    List TypeNames → TypeNames → TypeInfoInterner → TypeInfoInterner × ApiSignature
unfolding determine_api_signature_for_decl arg_names
determine_api_signature_for_proto_type param_types return_type s =
    determine_api_signature_for_decl (arg_names 0 param_types) return_type s

-- What clang says of a function.
pub record FunctionDecl : Type 0 where
  pub info : CgFunctionInfo
  pub convention : CallingConv
  pub parameters : List (String × TypeNames)
  pub return_type : TypeNames
  pub is_variadic : Bool

unfoldable pub determine_fn_signature_for_decl :
    FunctionDecl → TypeInfoInterner → Option (TypeInfoInterner × FnSignature)
unfolding determine_abi_signature_for_decl determine_api_signature_for_decl
determine_fn_signature_for_decl fn s = do
  abi ← determine_abi_signature_for_decl fn.info fn.convention
  let (s', api) = determine_api_signature_for_decl fn.parameters fn.return_type s in
      some (s', record { abi = abi; api = api; variadic = fn.is_variadic })

pub record FunctionProtoType : Type 0 where
  pub info : CgFunctionInfo
  pub param_types : List TypeNames
  pub return_type : TypeNames
  pub is_variadic : Bool

-- A function type, whose calling convention is not looked at.
unfoldable pub determine_fn_signature_for_proto_type :
    FunctionProtoType → TypeInfoInterner → Option (TypeInfoInterner × FnSignature)
unfolding determine_abi_signature determine_api_signature_for_proto_type
determine_fn_signature_for_proto_type fpt s = do
  abi ← determine_abi_signature fpt.info
  let (s', api) = determine_api_signature_for_proto_type fpt.param_types fpt.return_type s in
      some (s', record { abi = abi; api = api; variadic = fpt.is_variadic })
