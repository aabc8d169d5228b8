-- ===== src/Params/Placement.antt =====
-- Every step of allocate_param_locations keeps the stack area in order.
use ia2_phase.Params.Fit.{size-no_reg, IsFit, dispatch-IsPlaced}
use ia2_phase.Params.Layout.{IsNarrow, demand, Laid, extent, IsPlaced}
use ia2_phase.Params.Progress.{IsKind, IsSlot, allocate_param_locations-ne-none}
use ia2_phase.Base.{refl, All, Bool-cases, ◌&&◌, fold_m, Returns, returns, fold_m_inv, inl, inr}
use ia2_phase.Abi.{Arch, AbiSignature}
use ia2_phase.Abi
use ia2_phase.Params.{
  Kind, ArgLocation, Slots, is_x86, lower_indirect, allocate_param_locations, alloc_step,
  return_pointer,
}
use ia2_phase.Base.{ℕ, ◌≤◌, ◌<◌, arith, ◌≡◌, List, ◌∷◌, [], false, some, >>=-eq-some, none, ◌≢◌}

direct_fit :
    (k : Kind) (l : ArgLocation)
    → IsKind k l
    → IsNarrow l
    → l.kind ≡ k
    → l.reg ≡ none
    → (l.kind ≡ Kind.integral → extent l ≤ 8)
      × (l.kind ≢ Kind.integral → l.indirect_on_stack ≡ false)
direct_fit Kind.integral l h n k r =
    ((λ _. ground (arith, n.narrow k, size-no_reg l r)), λ m. absurd (m k))
direct_fit Kind.float l h n k r = ((λ i. ground arith), λ _. h.1)
direct_fit Kind.memory l h n k r = ((λ i. ground arith), λ _. h.1)

lowered-IsFit :
    (l : ArgLocation)
    → IsSlot l
    → IsNarrow l
    → IsFit (Abi.stack (Abi.size l) l.align)
      × ((Abi.stack (Abi.size l) l.align).raw_size ≡ l.raw_size)
      × ((Abi.stack (Abi.size l) l.align).align ≡ l.align)
unfolding Abi.stack
lowered-IsFit l h n =
    let size_raw = size-no_reg l h.fresh.no_reg in
    (
      record {
        fit_reg = refl;
        fit_kind = (refl, refl);
        fit_narrow = λ i. ground arith;
        fit_direct = λ _. refl;
        fit_align = omega (arith, n.aligned, n.align_bound);
      },
      omega (arith, size_raw, n.size_bound),
      omega (arith, n.align_bound),
    )

lower_indirect-IsFit :
    (arch : Arch) (l : ArgLocation)
    → IsSlot l
    → IsNarrow l
    → IsFit (lower_indirect arch l)
      × ((lower_indirect arch l).raw_size ≡ l.raw_size)
      × ((lower_indirect arch l).align ≡ l.align)
unfolding lower_indirect
lower_indirect-IsFit arch l h n = elim (Bool-cases (is_x86 arch && l.indirect_on_stack)) [
  | inl e ↦ rw (e, lower_indirect) (lowered-IsFit l h n)
  | inr e ↦
      rw (e, lower_indirect)
        (let fit = direct_fit l.kind l h.kinded n refl h.fresh.no_reg in
          (
            record {
              fit_reg = h.fresh.no_reg;
              fit_kind = h.kinded;
              fit_narrow = fit.0;
              fit_direct = fit.1;
              fit_align = n.aligned;
            },
            refl,
            refl,
          ))
]

alloc_step-IsPlaced :
    (arch : Arch) (ls : List ArgLocation) (l : ArgLocation) (s t : Slots)
    → IsSlot l
    → IsNarrow l
    → IsPlaced s (l ∷ ls)
    → alloc_step arch s l ≡ some t
    → IsPlaced t ls
unfolding alloc_step
alloc_step-IsPlaced arch ls l s t h n p e =
    let (fit, same_size, same_align) = lower_indirect-IsFit arch l h n in
    dispatch-IsPlaced _ arch ls (lower_indirect arch l) s t fit (p.0, omega arith) refl e

return_pointer-IsPlaced :
    (arch : Arch) (ret ls : List ArgLocation) (s : Slots)
    → demand ls < 18446744073709551616
    → return_pointer arch ret ≡ some s
    → IsPlaced s ls
unfolding return_pointer
return_pointer-IsPlaced Arch.x86 ret ls s h e = ground arith
return_pointer-IsPlaced Arch.aarch64 ret ls s h e = ground arith

abbrev Todo : Slots → List ArgLocation → Type 0
Todo s ls = All IsSlot ls × All IsNarrow ls × IsPlaced s ls

allocate_param_locations-placed :
    (func : AbiSignature) (arch : Arch) (r : List ArgLocation × ℕ)
    → Todo (record { args = []; ints_used = 0; floats_used = 0; stack_offset = 0 }) func.args
    → allocate_param_locations func arch ≡ some r
    → Laid 0 r.0 r.1
unfolding allocate_param_locations
allocate_param_locations-placed func arch r (slots, narrow, (_, room)) h =
    let (s, first, rest) = >>=-eq-some (return_pointer arch func.ret) _ h in
    let (t, looped, last) = >>=-eq-some (fold_m (alloc_step arch) s func.args) _ rest in
    let start = return_pointer-IsPlaced arch func.ret func.args s (omega arith) first in
    let placed =
      (fold_m_inv Todo (alloc_step arch)
        (λ u l ls v p e. (p.0.1, p.1.1, alloc_step-IsPlaced arch ls l u v p.0.0 p.1.0 p.2 e)) s
        func.args t (slots, narrow, start) looped).2.0 in
    ground arith

-- On a signature of slots with no 16-byte integer, no alignment 0 and less than 2^64 bytes, the
-- allocation returns, and its stack locations lie in the order of the parameters from offset 0
-- without overlap, each within the size that is returned and each memory argument at a multiple of
-- its alignment.
pub allocate_param_locations-Laid :
    (func : AbiSignature) (arch : Arch)
    → All IsSlot func.args
    → All IsNarrow func.args
    → demand func.args < 18446744073709551616
    → Returns (allocate_param_locations func arch) (λ r. Laid 0 r.0 r.1)
allocate_param_locations-Laid func arch slots narrow room =
    returns _ (allocate_param_locations-ne-none func arch slots)
      λ r. allocate_param_locations-placed func arch r (slots, narrow, (omega arith, omega arith))
