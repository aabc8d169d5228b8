-- ===== src/Params/Located.antt =====
-- Every location that allocate_param_locations returns is on the stack or in a register.
use ia2_phase.Abi.{Arch, ArgLocation, AbiSignature, Kind}
use ia2_phase.Base.{
  ℕ, get_elem?, All, List, ◌≡◌, false, some, >>=-eq-some, true, arith, All-append, fold_m, assert,
  subst, All-get_elem?, ◌==◌, fold_m_inv, some-injective, ◌∷◌, [], not, Bool-cases, inl, inr, refl,
}
use ia2_phase.Registers.{Reg, reg_eq, rsp}
use ia2_phase.Params.{
  no_slots, Slots, push_back, int_param_reg_order, float_reg_order, take_int_reg, alloc_step,
  take_two_regs, take_stack, take_float_reg, alloc_memory, spill_integral, round_up, half_arg,
  any_in_memory, return_pointer, dispatch, lower_indirect, allocate_param_locations, xreg,
}
use ia2_phase.Abi

-- A location that is not on the stack has a register, and it is not the stack pointer.
abbrev pub IsLocated : ArgLocation → Type 0
IsLocated l = l.on_stack ≡ false → (r : Reg) × (l.reg ≡ some r) × (reg_eq rsp r ≡ false)

-- An entry of the orders is not the stack pointer.
int_order-rsp :
    (arch : Arch) (i : ℕ) (r : Reg)
    → get_elem? (int_param_reg_order arch) i ≡ some r
    → reg_eq rsp r ≡ false
unfolding reg_eq
int_order-rsp Arch.x86 i r h =
    All-get_elem? (λ s. reg_eq rsp s ≡ false) (int_param_reg_order Arch.x86) i r (ground arith) h
int_order-rsp Arch.aarch64 i r h =
    All-get_elem? (λ s. reg_eq rsp s ≡ false) (int_param_reg_order Arch.aarch64) i r (ground arith)
      h

pub float_order-rsp :
    (arch : Arch) (i : ℕ) (r : Reg)
    → get_elem? (float_reg_order arch) i ≡ some r
    → reg_eq rsp r ≡ false
unfolding reg_eq
float_order-rsp Arch.x86 i r h =
    All-get_elem? (λ s. reg_eq rsp s ≡ false) (float_reg_order Arch.x86) i r (ground arith) h
float_order-rsp Arch.aarch64 i r h =
    All-get_elem? (λ s. reg_eq rsp s ≡ false) (float_reg_order Arch.aarch64) i r (ground arith) h

pub reg_allocated : (r : Reg) (l a : ArgLocation) → Abi.allocate_reg r l ≡ some a → a.reg ≡ some r
unfolding Abi.allocate_reg
reg_allocated r l a e = ground arith

on_allocated :
    (offset : ℕ) (l a : ArgLocation) → Abi.allocate_stack offset l ≡ some a → a.on_stack ≡ true
unfolding Abi.allocate_stack
on_allocated offset l a e = ground arith

module _ (arch : Arch) where
  take_int_reg-IsLocated :
      (l : ArgLocation) (s t : Slots)
      → All IsLocated s.args
      → take_int_reg arch l s ≡ some t
      → All IsLocated t.args
  unfolding take_int_reg
  take_int_reg-IsLocated l s t h e =
      let (r, found, e1) = >>=-eq-some (get_elem? (int_param_reg_order arch) s.ints_used) _ e in
      let (a, e2, e3) = >>=-eq-some (Abi.allocate_reg r l) _ e1 in
      let placed : All IsLocated (push_back s.args a) =
        All-append IsLocated s.args (a ∷ []) h
          ((λ _. (r, reg_allocated r l a e2, int_order-rsp arch s.ints_used r found)), tt) in
      subst (λ u. All IsLocated u.args) (some-injective _ t e3) placed

  take_float_reg-IsLocated :
      (l : ArgLocation) (s t : Slots)
      → All IsLocated s.args
      → take_float_reg arch l s ≡ some t
      → All IsLocated t.args
  unfolding take_float_reg
  take_float_reg-IsLocated l s t h e =
      let (r, found, e1) = >>=-eq-some (get_elem? (float_reg_order arch) s.floats_used) _ e in
      let (a, e2, e3) = >>=-eq-some (Abi.allocate_reg r l) _ e1 in
      let placed : All IsLocated (push_back s.args a) =
        All-append IsLocated s.args (a ∷ []) h
          ((λ _. (r, reg_allocated r l a e2, float_order-rsp arch s.floats_used r found)), tt) in
      subst (λ u. All IsLocated u.args) (some-injective _ t e3) placed

  take_two_regs-IsLocated :
      (l : ArgLocation) (s t : Slots)
      → All IsLocated s.args
      → take_two_regs arch l s ≡ some t
      → All IsLocated t.args
  unfolding take_two_regs
  take_two_regs-IsLocated l s t h e =
      let (_, _, e1) = >>=-eq-some (assert (Abi.size l == 16)) _ e in
      let (_, _, e2) = >>=-eq-some (assert (not l.indirect_on_stack)) _ e1 in
      let (u, e3, e4) = >>=-eq-some (take_int_reg arch half_arg s) _ e2 in
      take_int_reg-IsLocated half_arg u t (take_int_reg-IsLocated half_arg s u h e3) e4

  take_stack-IsLocated :
      (by : ℕ) (l : ArgLocation) (s t : Slots)
      → All IsLocated s.args
      → take_stack by l s ≡ some t
      → All IsLocated t.args
  unfolding take_stack
  take_stack-IsLocated by l s t h e =
      let (a, e1, e2) = >>=-eq-some (Abi.allocate_stack s.stack_offset l) _ e in
      let on : a.on_stack ≡ true = on_allocated s.stack_offset l a e1 in
      subst (λ u. All IsLocated u.args) (some-injective _ t e2)
        (All-append IsLocated s.args (a ∷ []) h ((λ off. cc), tt))

  alloc_memory-IsLocated :
      (l : ArgLocation) (s t : Slots)
      → All IsLocated s.args
      → alloc_memory s l ≡ some t
      → All IsLocated t.args
  unfolding alloc_memory
  alloc_memory-IsLocated l s t h e =
      let (_, _, e0) = >>=-eq-some (assert l.on_stack) _ e in
      let (_, _, e1) = >>=-eq-some (assert (not (l.align == 0))) _ e0 in
      let rounded = record s { stack_offset = round_up s.stack_offset l.align } in
      let (u, e2, e3) = >>=-eq-some (take_stack (Abi.size l) l rounded) _ e1 in
      subst (λ v. All IsLocated v.args) (some-injective _ t e3)
        (take_stack-IsLocated (Abi.size l) l rounded u h e2)

  dispatch-IsLocated :
      (k : Kind) (l : ArgLocation) (s t : Slots)
      → All IsLocated s.args
      → dispatch k arch s l ≡ some t
      → All IsLocated t.args
  unfolding dispatch spill_integral
  dispatch-IsLocated Kind.integral l s t h e = ground (
    arith,
    take_int_reg-IsLocated l s t h,
    take_two_regs-IsLocated l s t h,
    take_stack-IsLocated 8 l s t h,
  )
  dispatch-IsLocated Kind.float l s t h e =
      ground (arith, take_float_reg-IsLocated l s t h, take_stack-IsLocated (Abi.size l) l s t h)
  dispatch-IsLocated Kind.memory l s t h e = alloc_memory-IsLocated l s t h e

return_pointer-IsLocated :
    (arch : Arch) (ret : List ArgLocation) (s : Slots)
    → return_pointer arch ret ≡ some s
    → All IsLocated s.args
unfolding return_pointer no_slots reg_eq half_arg Abi.register Abi.allocate_reg
return_pointer-IsLocated Arch.x86 ret s e = elim (Bool-cases (any_in_memory ret)) [
  | inl memory ↦ take_int_reg-IsLocated Arch.x86 half_arg no_slots s tt (rw memory at e)
  | inr direct ↦ subst (λ u. All IsLocated u.args) (some-injective no_slots s (rw direct at e)) tt
]
return_pointer-IsLocated Arch.aarch64 ret s e = elim (Bool-cases (any_in_memory ret)) [
  | inl memory ↦
      let a : ArgLocation = record half_arg { allocated = true; reg = some (xreg 8) } in
      let s0 : Slots = record no_slots { args = push_back no_slots.args a } in
      let same : some s0 ≡ some s = rw memory at e in
      let placed : All IsLocated s0.args = ((λ _. (xreg 8, refl, refl)), tt) in
      subst (λ u. All IsLocated u.args) (some-injective s0 s same) placed
  | inr direct ↦ subst (λ u. All IsLocated u.args) (some-injective no_slots s (rw direct at e)) tt
]

pub allocate_param_locations-IsLocated :
    (func : AbiSignature) (arch : Arch) (r : List ArgLocation × ℕ)
    → allocate_param_locations func arch ≡ some r
    → All IsLocated r.0
unfolding allocate_param_locations alloc_step
allocate_param_locations-IsLocated func arch r e =
    let (s, first, rest) = >>=-eq-some (return_pointer arch func.ret) _ e in
    let (t, looped, last) = >>=-eq-some (fold_m (alloc_step arch) s func.args) _ rest in
    let kept =
      fold_m_inv (λ u ls. All IsLocated u.args) (alloc_step arch)
        (λ u l ls v h e'. dispatch-IsLocated arch _ (lower_indirect arch l) u v h e') s func.args t
        (return_pointer-IsLocated arch func.ret s first) looped in
    subst (λ p. All IsLocated p.0) (some-injective _ r last) kept
