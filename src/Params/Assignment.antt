-- ===== src/Params/Assignment.antt =====
-- Which registers allocate_param_locations gives to the parameters.
use ia2_phase.Params.Orders.{
  regs_of, regs_of-push_back, int_order-class, float_order-class, IsPrefixed, regs_of-none,
}
use ia2_phase.Params.Progress.{IsSlot, allocate_param_locations-ne-none}
use ia2_phase.Abi
use ia2_phase.Base.{
  ℕ, ◌≤◌, ◌≡◌, List, [], ◌∷◌, ◌++◌, true, false, arith, if◌then◌else◌, append-nil, >>=-eq-some,
  lt_of_get_elem?, take-suc, append_assoc, assert, not, ◌||◌, ◌==◌, All, fold_m, Returns,
  fold_m_inv, returns,
}
use ia2_phase.Base.{some, none, length, take, get_elem?}
use ia2_phase.Registers.{Reg, is_vector}
use ia2_phase.Abi.{Arch, ArgLocation, Kind, AbiSignature}
use ia2_phase.Params.{
  Slots, int_param_reg_order, float_reg_order, take_int_reg, alloc_step, take_two_regs, take_stack,
  take_float_reg, alloc_memory, spill_integral, round_up, is_x86, half_arg, any_in_memory,
  return_pointer, dispatch, lower_indirect, xreg, allocate_param_locations,
}

module _ (arch : Arch) (pre : List Reg) where
  take_int_reg-IsPrefixed :
      (l : ArgLocation) (s t : Slots)
      → IsPrefixed arch pre s
      → take_int_reg arch l s ≡ some t
      → IsPrefixed arch pre t
  unfolding take_int_reg regs_of
  take_int_reg-IsPrefixed l s t h e =
      let (r, found, rest) = >>=-eq-some (get_elem? (int_param_reg_order arch) s.ints_used) _ e in
      ground (
        arith,
        int_order-class arch s.ints_used r found,
        lt_of_get_elem? (int_param_reg_order arch) s.ints_used found,
        take-suc (int_param_reg_order arch) s.ints_used r found,
        regs_of-push_back false s.args (record l { allocated = true; reg = some r }),
        regs_of-push_back true s.args (record l { allocated = true; reg = some r }),
        append_assoc pre (take s.ints_used (int_param_reg_order arch)) (r ∷ []),
        append-nil (regs_of true s.args),
      )

  take_float_reg-IsPrefixed :
      (l : ArgLocation) (s t : Slots)
      → IsPrefixed arch pre s
      → take_float_reg arch l s ≡ some t
      → IsPrefixed arch pre t
  unfolding take_float_reg regs_of
  take_float_reg-IsPrefixed l s t h e =
      let (r, found, rest) = >>=-eq-some (get_elem? (float_reg_order arch) s.floats_used) _ e in
      ground (
        arith,
        float_order-class arch s.floats_used r found,
        lt_of_get_elem? (float_reg_order arch) s.floats_used found,
        take-suc (float_reg_order arch) s.floats_used r found,
        regs_of-push_back false s.args (record l { allocated = true; reg = some r }),
        regs_of-push_back true s.args (record l { allocated = true; reg = some r }),
        append-nil (regs_of false s.args),
      )

  take_two_regs-IsPrefixed :
      (l : ArgLocation) (s t : Slots)
      → IsPrefixed arch pre s
      → take_two_regs arch l s ≡ some t
      → IsPrefixed arch pre t
  unfolding take_two_regs
  take_two_regs-IsPrefixed l s t h e =
      let (_, _, e1) = >>=-eq-some (assert (Abi.size l == 16)) _ e in
      let (_, _, e2) = >>=-eq-some (assert (not l.indirect_on_stack)) _ e1 in
      let (u, e3, e4) = >>=-eq-some (take_int_reg arch half_arg s) _ e2 in
      take_int_reg-IsPrefixed half_arg u t (take_int_reg-IsPrefixed half_arg s u h e3) e4

  take_stack-IsPrefixed :
      (by : ℕ) (l : ArgLocation) (s t : Slots)
      → l.reg ≡ none
      → IsPrefixed arch pre s
      → take_stack by l s ≡ some t
      → IsPrefixed arch pre t
  unfolding take_stack
  take_stack-IsPrefixed by l s t n h e =
      let placed = record l { allocated = true; on_stack = true; stack_offset = s.stack_offset } in
      ground (arith, regs_of-none false s.args placed, regs_of-none true s.args placed)

  spill_integral-IsPrefixed :
      (l : ArgLocation) (s t : Slots)
      → l.reg ≡ none
      → IsPrefixed arch pre s
      → spill_integral arch l s ≡ some t
      → IsPrefixed arch pre t
  unfolding spill_integral
  spill_integral-IsPrefixed l s t n h e =
      let (_, _, e1) = >>=-eq-some (assert (not (is_x86 arch) || not l.indirect_on_stack)) _ e in
      take_stack-IsPrefixed 8 l s t n h e1

  alloc_memory-IsPrefixed :
      (l : ArgLocation) (s t : Slots)
      → l.reg ≡ none
      → IsPrefixed arch pre s
      → alloc_memory s l ≡ some t
      → IsPrefixed arch pre t
  unfolding alloc_memory
  alloc_memory-IsPrefixed l s t n h e =
      let (_, _, e0) = >>=-eq-some (assert l.on_stack) _ e in
      let (_, _, e1) = >>=-eq-some (assert (not (l.align == 0))) _ e0 in
      let rounded = record s { stack_offset = round_up s.stack_offset l.align } in
      let (u, e2, e3) = >>=-eq-some (take_stack (Abi.size l) l rounded) _ e1 in
      let kept =
        take_stack-IsPrefixed (Abi.size l) l rounded u n
          (record {
            ints = h.ints;
            floats = h.floats;
            ints_bound = h.ints_bound;
            floats_bound = h.floats_bound;
          })
          e2 in
      ground arith

  dispatch-IsPrefixed :
      (k : Kind) (l : ArgLocation) (s t : Slots)
      → l.reg ≡ none
      → IsPrefixed arch pre s
      → dispatch k arch s l ≡ some t
      → IsPrefixed arch pre t
  unfolding dispatch
  dispatch-IsPrefixed Kind.integral l s t n h e = ground (
    arith,
    take_int_reg-IsPrefixed l s t h,
    take_two_regs-IsPrefixed l s t h,
    spill_integral-IsPrefixed l s t n h,
  )
  dispatch-IsPrefixed Kind.float l s t n h e =
      ground
        (arith, take_float_reg-IsPrefixed l s t h, take_stack-IsPrefixed (Abi.size l) l s t n h)
  dispatch-IsPrefixed Kind.memory l s t n h e = alloc_memory-IsPrefixed l s t n h e

lower_indirect-no_reg :
    (arch : Arch) (l : ArgLocation) → l.reg ≡ none → (lower_indirect arch l).reg ≡ none
unfolding lower_indirect
lower_indirect-no_reg arch l h = ground arith

alloc_step-IsPrefixed :
    (arch : Arch) (pre : List Reg) (s t : Slots) (l : ArgLocation)
    → l.reg ≡ none
    → IsPrefixed arch pre s
    → alloc_step arch s l ≡ some t
    → IsPrefixed arch pre t
unfolding alloc_step
alloc_step-IsPrefixed arch pre s t l n h e =
    let l' = lower_indirect arch l in
    dispatch-IsPrefixed arch pre l'.kind l' s t (lower_indirect-no_reg arch l n) h e

-- The register of the hidden return pointer, if it is not the first of the order.
pub return_regs : Arch → List ArgLocation → List Reg
return_regs Arch.x86 ret = []
return_regs Arch.aarch64 ret = if any_in_memory ret then xreg 8 ∷ [] else []

return_pointer-IsPrefixed :
    (arch : Arch) (ret : List ArgLocation) (s : Slots)
    → return_pointer arch ret ≡ some s
    → IsPrefixed arch (return_regs arch ret) s
unfolding return_pointer return_regs regs_of is_vector
return_pointer-IsPrefixed Arch.x86 ret s h = ground arith
return_pointer-IsPrefixed Arch.aarch64 ret s h = ground arith

-- Integer registers are the first few of their order, behind `x8` where it holds the return
-- pointer, and vector registers are the first few of theirs. Neither order repeats a register.
abbrev pub InOrder : Arch → List ArgLocation → List ArgLocation → Type 0
InOrder arch ret args =
    (ints : ℕ) × (floats : ℕ) × (ints ≤ length (int_param_reg_order arch))
    × (floats ≤ length (float_reg_order arch))
    × (regs_of false args ≡ return_regs arch ret ++ take ints (int_param_reg_order arch))
    × (regs_of true args ≡ take floats (float_reg_order arch))

alloc_loop-IsPrefixed :
    (arch : Arch) (pre : List Reg) (ls : List ArgLocation) (s t : Slots)
    → All IsSlot ls
    → IsPrefixed arch pre s
    → fold_m (alloc_step arch) s ls ≡ some t
    → IsPrefixed arch pre t
alloc_loop-IsPrefixed arch pre ls s t slots h e =
    (fold_m_inv (λ u rest. All IsSlot rest × IsPrefixed arch pre u) (alloc_step arch)
      (λ u l rest v p e'. (p.0.1, alloc_step-IsPrefixed arch pre u v l p.0.0.fresh.no_reg p.1 e')) s
      ls t (slots, h) e).1

allocate_param_locations-ordered :
    (func : AbiSignature) (arch : Arch) (r : List ArgLocation × ℕ)
    → All IsSlot func.args
    → allocate_param_locations func arch ≡ some r
    → InOrder arch func.ret r.0
unfolding allocate_param_locations
allocate_param_locations-ordered func arch r slots h =
    let (s, first, rest) = >>=-eq-some (return_pointer arch func.ret) _ h in
    let (t, looped, last) = >>=-eq-some (fold_m (alloc_step arch) s func.args) _ rest in
    let inv =
      alloc_loop-IsPrefixed arch (return_regs arch func.ret) func.args s t slots
        (return_pointer-IsPrefixed arch func.ret s first) looped in
    (t.ints_used, t.floats_used, inv.ints_bound, inv.floats_bound, ground arith, ground arith)

-- On every signature of slots (in memory none of alignment 0) the allocation returns, and gives out the parameter registers in
-- order without a gap: the integer registers used are an initial part of the order (behind x8 if
-- an AArch64 result is in memory), and the vector registers used are an initial part of theirs.
pub allocate_param_locations-InOrder :
    (func : AbiSignature) (arch : Arch)
    → All IsSlot func.args
    → Returns (allocate_param_locations func arch) (λ r. InOrder arch func.ret r.0)
allocate_param_locations-InOrder func arch slots =
    returns _ (allocate_param_locations-ne-none func arch slots)
      λ r. allocate_param_locations-ordered func arch r slots
