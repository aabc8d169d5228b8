-- ===== src/Params/Progress.antt =====
-- allocate_param_locations returns on every signature that abiSlotsForArg can build, from types whose
-- alignment is not 0.
use ia2_phase.Base.{
  ◌+◌, ◌≤◌, ◌<◌, ◌≡◌, ◌≢◌, ◌⊎◌, inl, inr, true, false, none, arith, Option-cases, fold_m-ne-none,
  ◌||◌, u32, ◌==◌,
}
use ia2_phase.Base.{List, All, length, get_elem?_total, fold_m}
use ia2_phase.Abi.{Arch, ArgLocation, AbiSignature, Kind}
use ia2_phase.Params.{
  Slots, alloc_step, return_pointer, allocate_param_locations, take_int_reg, take_float_reg,
  take_two_regs, int_param_reg_order, float_reg_order,
}

-- A slot as the factories make it, before a location is allocated.
pub record IsFresh (l : ArgLocation) : Type 0 where
  pub unallocated : l.allocated ≡ false
  pub no_reg : l.reg ≡ none

abbrev pub IsKind : Kind → ArgLocation → Type 0
IsKind Kind.integral l =
    (l.on_stack ≡ false) × ((l.indirect_on_stack ≡ true) ⊎ (l.raw_size ≤ 8) ⊎ (l.raw_size ≡ 16))
IsKind Kind.float l = (l.on_stack ≡ false) × (l.indirect_on_stack ≡ false)
IsKind Kind.memory l = (l.on_stack ≡ true) × (l.indirect_on_stack ≡ false)

-- A slot that is in memory, or may be, has an alignment (an `unsigned`) to divide by.
pub record IsSlot (l : ArgLocation) : Type 0 where
  pub fresh : IsFresh l
  pub kinded : IsKind l.kind l
  pub aligned : (l.on_stack || l.indirect_on_stack) ≡ true → (u32 l.align == 0) ≡ false

module _ (arch : Arch) where
  take_int_reg-ne-none :
      (l : ArgLocation) (s : Slots)
      → IsFresh l
      → s.ints_used < length (int_param_reg_order arch)
      → take_int_reg arch l s ≢ none
  unfolding take_int_reg
  take_int_reg-ne-none l s f h =
      let (r, e) = get_elem?_total (int_param_reg_order arch) s.ints_used h in ground arith

  take_float_reg-ne-none :
      (l : ArgLocation) (s : Slots)
      → IsFresh l
      → s.floats_used < length (float_reg_order arch)
      → take_float_reg arch l s ≢ none
  unfolding take_float_reg
  take_float_reg-ne-none l s f h =
      let (r, e) = get_elem?_total (float_reg_order arch) s.floats_used h in ground arith

  take_two_regs-ne-none :
      (l : ArgLocation) (s : Slots)
      → IsFresh l
      → l.indirect_on_stack ≡ false
      → l.raw_size ≡ 16
      → s.ints_used + 1 < length (int_param_reg_order arch)
      → take_two_regs arch l s ≢ none
  unfolding take_two_regs
  take_two_regs-ne-none l s f i z h =
      let (r, e) = get_elem?_total (int_param_reg_order arch) s.ints_used (omega arith) in
      let (r', e') = get_elem?_total (int_param_reg_order arch) (s.ints_used + 1) h in ground arith

  pub alloc_step-ne-none : (s : Slots) (l : ArgLocation) → IsSlot l → alloc_step arch s l ≢ none
  unfolding alloc_step
  alloc_step-ne-none s l h = ground (
    arith,
    h.aligned,
    take_int_reg-ne-none l s h.fresh,
    take_float_reg-ne-none l s h.fresh,
    take_two_regs-ne-none l s h.fresh,
  )

return_pointer-ne-none : (arch : Arch) (ret : List ArgLocation) → return_pointer arch ret ≢ none
unfolding return_pointer
return_pointer-ne-none Arch.x86 ret = ground arith
return_pointer-ne-none Arch.aarch64 ret = ground arith

-- Every signature of slots has locations: no assertion fails, no index is out of range and nothing
-- is divided by 0.
pub allocate_param_locations-ne-none :
    (func : AbiSignature) (arch : Arch)
    → All IsSlot func.args
    → allocate_param_locations func arch ≢ none
unfolding allocate_param_locations
allocate_param_locations-ne-none func arch h = elim (Option-cases (return_pointer arch func.ret)) [
  | inl e ↦ absurd (return_pointer-ne-none arch func.ret e)
  | inr (s, e) ↦ rw e (elim (Option-cases (fold_m (alloc_step arch) s func.args)) [
    | inl e' ↦
        absurd (fold_m-ne-none IsSlot (alloc_step arch) (alloc_step-ne-none arch) s func.args h e')
    | inr (t, e') ↦ rw e' (λ bad. cc)
  ])
]
