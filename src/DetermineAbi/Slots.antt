-- ===== src/DetermineAbi/Slots.antt =====
-- Which classifications are accepted, and that their signatures have locations.
use ia2_phase.Abi
use ia2_phase.Abi.{ArgLocation, AbiSignature, Kind, Arch}
use ia2_phase.DetermineAbi.{
  LlvmType, CoerceType, InfoKind, AbiArgInfo, QualType, CgFunctionInfo, classify_scalar_type,
  classify_all, direct_slots, slots_of_kind, abi_slots_for_arg, slots_for_args,
  determine_abi_signature, struct, array, fixed_vector, scalar, indirect_aliased, indirect, extend,
  direct, ignore, in_alloca, expand, coerce_and_expand,
}
use ia2_phase.Params.{allocate_param_locations}
use ia2_phase.Params.Progress.{IsSlot, allocate_param_locations-ne-none}
use ia2_phase.Base.{
  ℕ, Bool, List, none, [], ◌∷◌, ◌≡◌, ◌≢◌, ◌≤◌, ◌⊎◌, true, false, arith, refl, All, All-append,
  replicate, zero, suc, Returns, Returns->>=, inl, inr, u32, ◌==◌,
}

-- A floating-point type, or an integer or pointer of at most 8 bytes or of 16.
abbrev pub IsScalar : LlvmType → Type 0
IsScalar type =
    (type.is_floating_point ≡ true)
    ⊎ ((type.is_floating_point ≡ false)
        × (type.is_int_or_ptr ≡ true)
        × ((type.scalar_size_in_bits ≤ 64) ⊎ (type.scalar_size_in_bits ≡ 128)))

abbrev pub IsCoercible : CoerceType → Bool → Type 0
IsCoercible (struct elems) flat = (flat ≡ true) × All IsScalar elems
IsCoercible (array n type) flat = IsScalar type
IsCoercible (fixed_vector n type) flat = IsScalar type
IsCoercible (scalar type) flat = IsScalar type

-- The alignment of a type that is passed in memory is not 0.
abbrev pub IsHandled : InfoKind → QualType → AbiArgInfo → Type 0
IsHandled indirect_aliased qt info = (u32 qt.align == 0) ≡ false
IsHandled indirect qt info = (u32 qt.align == 0) ≡ false
IsHandled extend qt info = IsCoercible info.coerce_to info.can_be_flattened
IsHandled direct qt info = IsCoercible info.coerce_to info.can_be_flattened
IsHandled ignore qt info = Unit
IsHandled in_alloca qt info = ⊥
IsHandled expand qt info = ⊥
IsHandled coerce_and_expand qt info = ⊥

classify_scalar_type-IsSlot :
    (type : LlvmType) → IsScalar type → Returns (classify_scalar_type type) IsSlot
unfolding classify_scalar_type Abi.register
classify_scalar_type-IsSlot type (inl f) = rw f (record {
  fresh = record { unallocated = refl; no_reg = refl };
  kinded = (refl, refl);
  aligned = λ e. cc;
})
classify_scalar_type-IsSlot type (inr (f, i, small)) =
    rw (f, i)
      (record {
        fresh = record { unallocated = refl; no_reg = refl };
        kinded = (refl, inr (elim small [ inl h ↦ inl (omega arith) | inr h ↦ inr (omega arith) ]));
        aligned = λ e. cc;
      })

classify_all-IsSlot :
    (elems : List LlvmType) → All IsScalar elems → Returns (classify_all elems) (All IsSlot)
unfolding classify_all
classify_all-IsSlot [] h = tt
classify_all-IsSlot (e ∷ es) h =
    Returns->>= _ (classify_scalar_type e) _ (classify_scalar_type-IsSlot e h.0)
      (λ slot k. Returns->>= _ (classify_all es) _ (classify_all-IsSlot es h.1) (λ out j. (k, j)))

replicate-IsSlot : (n : ℕ) (l : ArgLocation) → IsSlot l → All IsSlot (replicate n l)
replicate-IsSlot zero l h = tt
replicate-IsSlot (suc n) l h = (h, replicate-IsSlot n l h)

direct_slots-IsSlot :
    (ty : CoerceType) (flat : Bool)
    → IsCoercible ty flat
    → Returns (direct_slots ty flat) (All IsSlot)
unfolding direct_slots
direct_slots-IsSlot (struct elems) flat h = rw h.0 (classify_all-IsSlot elems h.1)
direct_slots-IsSlot (array n type) flat h =
    Returns->>= _ (classify_scalar_type type) _ (classify_scalar_type-IsSlot type h)
      (λ slot k. replicate-IsSlot n slot k)
direct_slots-IsSlot (fixed_vector n type) flat h =
    Returns->>= _ (classify_scalar_type type) _ (classify_scalar_type-IsSlot type h)
      (λ slot k. replicate-IsSlot n slot k)
direct_slots-IsSlot (scalar type) flat h =
    Returns->>= _ (classify_scalar_type type) _ (classify_scalar_type-IsSlot type h)
      (λ slot k. (k, tt))

slots_of_kind-IsSlot :
    (kind : InfoKind) (qt : QualType) (info : AbiArgInfo)
    → IsHandled kind qt info
    → Returns (slots_of_kind kind qt info) (All IsSlot)
unfolding Abi.indirect
slots_of_kind-IsSlot indirect_aliased qt info h = (
  record {
    fresh = record { unallocated = refl; no_reg = refl };
    kinded = (refl, inl refl);
    aligned = λ e. ground arith;
  },
  tt,
)
slots_of_kind-IsSlot indirect qt info h = (
  record {
    fresh = record { unallocated = refl; no_reg = refl };
    kinded = (refl, inl refl);
    aligned = λ e. ground arith;
  },
  tt,
)
slots_of_kind-IsSlot extend qt info h = direct_slots-IsSlot info.coerce_to info.can_be_flattened h
slots_of_kind-IsSlot direct qt info h = direct_slots-IsSlot info.coerce_to info.can_be_flattened h
slots_of_kind-IsSlot ignore qt info h = tt
slots_of_kind-IsSlot in_alloca qt info h = h
slots_of_kind-IsSlot expand qt info h = h
slots_of_kind-IsSlot coerce_and_expand qt info h = h

abbrev pub IsHandledArg : QualType × AbiArgInfo → Type 0
IsHandledArg a = IsHandled a.1.kind a.0 a.1

slots_for_args-IsSlot :
    (args : List (QualType × AbiArgInfo))
    → All IsHandledArg args
    → Returns (slots_for_args args) (All IsSlot)
unfolding slots_for_args abi_slots_for_arg
slots_for_args-IsSlot [] h = tt
slots_for_args-IsSlot ((qt, info) ∷ args) h =
    Returns->>= _ (abi_slots_for_arg qt info) _ (slots_of_kind-IsSlot info.kind qt info h.0)
      (λ slots k.
        Returns->>= _ (slots_for_args args) _ (slots_for_args-IsSlot args h.1)
          (λ rest j. All-append IsSlot slots rest k j))

pub determine_abi_signature-located :
    (info : CgFunctionInfo) (arch : Arch)
    → IsHandled info.return_info.kind info.return_type info.return_info
    → All IsHandledArg info.arguments
    → Returns (determine_abi_signature info) (λ sig.
      All IsSlot sig.args × All IsSlot sig.ret × (allocate_param_locations sig arch ≢ none))
unfolding determine_abi_signature abi_slots_for_arg
determine_abi_signature-located info arch ret args =
    Returns->>= _ (abi_slots_for_arg info.return_type info.return_info) _
      (slots_of_kind-IsSlot info.return_info.kind info.return_type info.return_info ret)
      (λ r k.
        Returns->>= _ (slots_for_args info.arguments) _ (slots_for_args-IsSlot info.arguments args)
          (λ a j.
            let sig : AbiSignature = record { args = a; ret = r } in
            (j, k, allocate_param_locations-ne-none sig arch j)))
