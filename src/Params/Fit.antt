-- ===== src/Params/Fit.antt =====
-- The cases of allocate_param_locations keep the stack area in order.
use ia2_phase.Params.Layout.{
  demand, Laid, extent, IsPlaced, IsAligned, round_up-le, Laid-push_back, round_up-lt, round_up-mod,
  Laid-mono,
}
use ia2_phase.Params.Progress.{IsKind}
use ia2_phase.Base.{refl, u64, subst}
use ia2_phase.Abi.{Arch, AbiSignature}
use ia2_phase.Abi
use ia2_phase.Params.{
  round_up, Kind, ArgLocation, Slots, take_stack, take_float_reg, take_int_reg, float_reg_order,
  int_param_reg_order, spill_integral, take_two_regs, alloc_memory, half_arg, is_x86, dispatch,
}
use ia2_phase.Base.{
  ℕ, ◌+◌, ◌≤◌, ◌<◌, arith, ◌≡◌, List, ◌∷◌, [], true, false, some, >>=-eq-some, get_elem?, none,
  assert, ◌==◌, ◌≢◌, not, ◌||◌,
}

module _ (arch : Arch) (ls : List ArgLocation) where
  take_int_reg-IsPlaced :
      (l : ArgLocation) (s t : Slots)
      → l.on_stack ≡ false
      → IsPlaced s ls
      → take_int_reg arch l s ≡ some t
      → IsPlaced t ls
  unfolding take_int_reg
  take_int_reg-IsPlaced l s t f h e =
      let (r, found, rest) = >>=-eq-some (get_elem? (int_param_reg_order arch) s.ints_used) _ e in
      ground (
        arith,
        Laid-push_back 0 s.stack_offset s.stack_offset s.args
            (record l { allocated = true; reg = some r }),
      )

  take_float_reg-IsPlaced :
      (l : ArgLocation) (s t : Slots)
      → l.on_stack ≡ false
      → IsPlaced s ls
      → take_float_reg arch l s ≡ some t
      → IsPlaced t ls
  unfolding take_float_reg
  take_float_reg-IsPlaced l s t f h e =
      let (r, found, rest) = >>=-eq-some (get_elem? (float_reg_order arch) s.floats_used) _ e in
      ground (
        arith,
        Laid-push_back 0 s.stack_offset s.stack_offset s.args
            (record l { allocated = true; reg = some r }),
      )

  -- The slot is `by` bytes, which must hold the location.
  take_stack-IsPlaced :
      (by : ℕ) (l : ArgLocation) (s t : Slots)
      → extent l ≤ by
      → IsAligned l.kind (record l { stack_offset = s.stack_offset })
      → Laid 0 s.args s.stack_offset
      → s.stack_offset + by + demand ls < 18446744073709551616
      → take_stack by l s ≡ some t
      → IsPlaced t ls
  unfolding take_stack Abi.size
  take_stack-IsPlaced by l s t small a h room e = ground (
    arith,
    Laid-push_back 0 s.stack_offset (s.stack_offset + by) s.args
        (record l { allocated = true; on_stack = true; stack_offset = s.stack_offset }),
  )

  take_two_regs-IsPlaced :
      (l : ArgLocation) (s t : Slots)
      → IsPlaced s ls
      → take_two_regs arch l s ≡ some t
      → IsPlaced t ls
  unfolding take_two_regs half_arg Abi.register
  take_two_regs-IsPlaced l s t h e =
      let (_, _, e1) = >>=-eq-some (assert (Abi.size l == 16)) _ e in
      let (_, _, e2) = >>=-eq-some (assert (not l.indirect_on_stack)) _ e1 in
      let (u, e3, e4) = >>=-eq-some (take_int_reg arch half_arg s) _ e2 in
      take_int_reg-IsPlaced half_arg u t refl (take_int_reg-IsPlaced half_arg s u refl h e3) e4

pub size-no_reg : (l : ArgLocation) → l.reg ≡ none → Abi.size l ≡ l.raw_size
unfolding Abi.size
size-no_reg l h = rw h

pub take_stack-offset :
    (by : ℕ) (l : ArgLocation) (s t : Slots)
    → take_stack by l s ≡ some t
    → t.stack_offset ≡ u64 (s.stack_offset + by)
unfolding take_stack
take_stack-offset by l s t e = ground arith

-- The slot that `dispatch` sees, after an indirect x86 argument is turned into a stack one.
pub record IsFit (l : ArgLocation) : Type 0 where
  pub fit_reg : l.reg ≡ none
  pub fit_kind : IsKind l.kind l
  pub fit_narrow : l.kind ≡ Kind.integral → extent l ≤ 8
  pub fit_direct : l.kind ≢ Kind.integral → l.indirect_on_stack ≡ false
  pub fit_align : 0 < l.align

module _ (arch : Arch) (ls : List ArgLocation) (l : ArgLocation) (s t : Slots) (f : IsFit l)
    (h : IsPlaced s (l ∷ ls)) where
  spill_integral-IsPlaced :
      l.kind ≡ Kind.integral → spill_integral arch l s ≡ some t → IsPlaced t ls
  unfolding spill_integral
  spill_integral-IsPlaced k e =
      let (_, _, e1) = >>=-eq-some (assert (not (is_x86 arch) || not l.indirect_on_stack)) _ e in
      take_stack-IsPlaced arch ls 8 l s t (f.fit_narrow k) (rw k tt) h.0 (omega arith) e1

  extent_direct : l.kind ≢ Kind.integral → extent l ≡ Abi.size l
  extent_direct k = rw (f.fit_direct k)

  spill_float-IsPlaced : l.kind ≡ Kind.float → take_stack (Abi.size l) l s ≡ some t → IsPlaced t ls
  spill_float-IsPlaced k e =
      take_stack-IsPlaced arch ls (Abi.size l) l s t (omega (arith, extent_direct (λ i. cc)))
        (rw k tt) h.0 (omega (arith, size-no_reg l f.fit_reg)) e

  alloc_memory-IsPlaced : l.kind ≡ Kind.memory → alloc_memory s l ≡ some t → IsPlaced t ls
  unfolding alloc_memory
  alloc_memory-IsPlaced k e =
      let (_, _, e0) = >>=-eq-some (assert l.on_stack) _ e in
      let (_, _, e1) = >>=-eq-some (assert (not (l.align == 0))) _ e0 in
      let start = round_up s.stack_offset l.align in
      let above = round_up-le s.stack_offset l.align f.fit_align (omega arith) in
      let below = round_up-lt s.stack_offset l.align f.fit_align (omega arith) in
      let size_raw = size-no_reg l f.fit_reg in
      let (u, e2, e3) =
        >>=-eq-some (take_stack (Abi.size l) l (record s { stack_offset = start })) _ e1 in
      let placed =
        take_stack-IsPlaced arch [] (Abi.size l) l (record s { stack_offset = start }) u
          (omega (arith, extent_direct (λ i. cc)))
          (rw k (round_up-mod s.stack_offset l.align f.fit_align (omega arith)))
          (Laid-mono 0 s.stack_offset start s.args h.0 above) (omega arith) e2 in
      let end = take_stack-offset (Abi.size l) l (record s { stack_offset = start }) u e2 in
      ground (
        arith,
        Laid-mono 0 u.stack_offset (round_up u.stack_offset 8) u.args,
        round_up-le u.stack_offset 8,
        round_up-lt u.stack_offset 8,
      )

pub dispatch-IsPlaced :
    (k : Kind) (arch : Arch) (ls : List ArgLocation) (l : ArgLocation) (s t : Slots)
    → IsFit l
    → IsPlaced s (l ∷ ls)
    → l.kind ≡ k
    → dispatch k arch s l ≡ some t
    → IsPlaced t ls
unfolding dispatch
dispatch-IsPlaced Kind.integral arch ls l s t f h k e =
    let off : l.on_stack ≡ false = (subst (λ m. IsKind m l) k f.fit_kind).0 in
    ground (
      arith,
      take_int_reg-IsPlaced arch ls l s t off,
      take_two_regs-IsPlaced arch ls l s t,
      spill_integral-IsPlaced arch ls l s t f h k,
    )
dispatch-IsPlaced Kind.float arch ls l s t f h k e =
    let off : l.on_stack ≡ false = (subst (λ m. IsKind m l) k f.fit_kind).0 in
    ground
      (arith, take_float_reg-IsPlaced arch ls l s t off, spill_float-IsPlaced arch ls l s t f h k)
dispatch-IsPlaced Kind.memory arch ls l s t f h k e = alloc_memory-IsPlaced arch ls l s t f h k e
