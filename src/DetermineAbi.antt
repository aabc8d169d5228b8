-- ===== src/DetermineAbi.antt =====
-- tools/rewriter/DetermineAbi.cpp: from clang's classification of the parameters and the result of
-- a function to its slots. What clang and LLVM say of a type is an argument; `none` is
-- report_fatal_error or abort.
pub mod Slots
pub mod Api
pub mod Resolved
pub mod Signature
use ia2_phase.Abi
use ia2_phase.Abi.{ArgLocation, AbiSignature, Kind}
use ia2_phase.Base.{
  ℕ, Bool, List, Option, none, some, [], ◌∷◌, ◌++◌, ◌/◌, if◌then◌else◌, replicate, ◌>>=◌, false,
  true,
}

-- Answers of `llvm::Type`.
pub record LlvmType : Type 0 where
  pub scalar_size_in_bits : ℕ
  pub is_floating_point : Bool
  pub is_int_or_ptr : Bool

unfoldable pub classify_scalar_type : LlvmType → Option ArgLocation
classify_scalar_type type =
    let size = type.scalar_size_in_bits / 8 in
    if type.is_floating_point
    then some (Abi.register Kind.float size)
    else if type.is_int_or_ptr
    then some (Abi.register Kind.integral size)
    else none

-- The type that an argument is coerced to, as the casts tell it apart.
pub data CoerceType : Type 0 where
  struct : List LlvmType → CoerceType
  array : ℕ → LlvmType → CoerceType
  fixed_vector : ℕ → LlvmType → CoerceType
  scalar : LlvmType → CoerceType

pub data InfoKind : Type 0 where
  indirect_aliased indirect extend direct ignore in_alloca expand coerce_and_expand : InfoKind

-- `clang::CodeGen::ABIArgInfo`.
pub record AbiArgInfo : Type 0 where
  pub kind : InfoKind
  pub coerce_to : CoerceType
  pub can_be_flattened : Bool

-- The size and the alignment that `clang::ASTContext` gives for a type.
pub record QualType : Type 0 where
  pub size : ℕ
  pub align : ℕ

unfoldable pub classify_all : List LlvmType → Option (List ArgLocation)
unfolding classify_scalar_type
classify_all [] = some []
classify_all (elem ∷ elems) = do
  slot ← classify_scalar_type elem
  out ← classify_all elems
  some (slot ∷ out)

unfoldable pub direct_slots : CoerceType → Bool → Option (List ArgLocation)
unfolding classify_scalar_type classify_all
direct_slots (struct elems) can_be_flattened = if can_be_flattened then classify_all elems else none
direct_slots (array n type) can_be_flattened = do
  slot ← classify_scalar_type type
  some (replicate n slot)
direct_slots (fixed_vector n type) can_be_flattened = do
  slot ← classify_scalar_type type
  some (replicate n slot)
direct_slots (scalar type) can_be_flattened = do slot ← classify_scalar_type type; some (slot ∷ [])

abbrev pub slots_of_kind : InfoKind → QualType → AbiArgInfo → Option (List ArgLocation)
slots_of_kind indirect_aliased qt info = some (Abi.indirect qt.size qt.align ∷ [])
slots_of_kind indirect qt info = some (Abi.indirect qt.size qt.align ∷ [])
slots_of_kind extend qt info = direct_slots info.coerce_to info.can_be_flattened
slots_of_kind direct qt info = direct_slots info.coerce_to info.can_be_flattened
slots_of_kind ignore qt info = some []
slots_of_kind in_alloca qt info = none
slots_of_kind expand qt info = none
slots_of_kind coerce_and_expand qt info = none

unfoldable pub abi_slots_for_arg : QualType → AbiArgInfo → Option (List ArgLocation)
unfolding direct_slots
abi_slots_for_arg qt info = slots_of_kind info.kind qt info

unfoldable pub slots_for_args : List (QualType × AbiArgInfo) → Option (List ArgLocation)
unfolding abi_slots_for_arg
slots_for_args [] = some []
slots_for_args ((qt, info) ∷ args) = do
  slots ← abi_slots_for_arg qt info
  rest ← slots_for_args args
  some (slots ++ rest)

-- `clang::CodeGen::CGFunctionInfo`.
pub record CgFunctionInfo : Type 0 where
  pub return_type : QualType
  pub return_info : AbiArgInfo
  pub arguments : List (QualType × AbiArgInfo)

unfoldable pub determine_abi_signature : CgFunctionInfo → Option AbiSignature
unfolding abi_slots_for_arg slots_for_args
determine_abi_signature info = do
  ret ← abi_slots_for_arg info.return_type info.return_info
  args ← slots_for_args info.arguments
  some (record { args = args; ret = ret })

pub data CallingConv : Type 0 where
  cc_c cc_x86_64_sys_v cc_aapcs cc_aapcs_vfp cc_other : CallingConv

abbrev pub is_supported_convention : CallingConv → Bool
is_supported_convention cc_other = false
is_supported_convention convention = true

unfoldable pub determine_abi_signature_for_decl : CgFunctionInfo → CallingConv → Option AbiSignature
unfolding determine_abi_signature
determine_abi_signature_for_decl info convention =
    if is_supported_convention convention then determine_abi_signature info else none
