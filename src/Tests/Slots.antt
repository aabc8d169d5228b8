-- ===== src/Tests/Slots.antt =====
-- Tests of where the values of a signature go.
use ia2_phase.Registers.{rax, rdx, x86_float_reg_order, rdi, xmm, rsi, rcx, r8, r9, Reg}
use ia2_phase.ReturnLocs.{allocate_return_locations}
use ia2_phase.Abi.{ArgLocation, Arch, Kind}
use ia2_phase.Params.{Slots, allocate_param_locations, alloc_step}
use ia2_phase.Base.{
  All, Returns, [], arith, ◌∷◌, ◌≡◌, ℕ, ◌≢◌, List, ◌≤◌, false, ◌<◌, none, refl, true, take, some,
  inr, Option,
}
use ia2_phase.Abi
use ia2_phase.Base.{fold_m}
use ia2_phase.Tests.Data.{big_sig, small_sig}
use ia2_phase.Params.Progress.{IsSlot}
use ia2_phase.Params.Assignment.{InOrder, allocate_param_locations-InOrder}
use ia2_phase.Params.Orders.{regs_of}
use ia2_phase.Params.Placement.{allocate_param_locations-Laid}
use ia2_phase.Params.Layout.{Laid, IsNarrow}
use ia2_phase.Params.Spills.{spilled_int128-overruns, spilled_floats-size, float_sig}
use ia2_phase.ReturnLocs.Laws.{
  int_count, float_count, allocate_return_locations_in_order, int128_return-falls_through,
}

slot : (k : Kind) (n : ℕ) → n ≤ 8 → k ≢ Kind.memory → IsSlot (Abi.register k n)
unfolding Abi.register
slot Kind.integral n h apart = record {
  fresh = record { unallocated = refl; no_reg = refl };
  kinded = (refl, omega arith);
  aligned = λ e. cc;
}
slot Kind.float n h apart = record {
  fresh = record { unallocated = refl; no_reg = refl };
  kinded = (refl, refl);
  aligned = λ e. cc;
}
slot Kind.memory n h apart = absurd (apart refl)

narrow : (k : Kind) (n : ℕ) → 0 < n → n ≤ 8 → IsNarrow (Abi.register k n)
unfolding Abi.register
narrow k n p h = record {
  narrow = λ _. omega arith;
  aligned = omega arith;
  size_bound = omega arith;
  align_bound = omega arith;
}

long-IsSlot : IsSlot (Abi.register Kind.integral 8)
long-IsSlot = slot Kind.integral 8 (omega arith) (λ e. cc)

float-IsSlot : IsSlot (Abi.register Kind.float 4)
float-IsSlot = slot Kind.float 4 (omega arith) (λ e. cc)

big_slots : All IsSlot big_sig.args
big_slots = (
  long-IsSlot,
  (long-IsSlot, (long-IsSlot, (long-IsSlot, (long-IsSlot, (long-IsSlot, (float-IsSlot, tt)))))),
)

long-IsNarrow : IsNarrow (Abi.register Kind.integral 8)
long-IsNarrow = narrow Kind.integral 8 (omega arith) (omega arith)

big-IsNarrow : All IsNarrow big_sig.args
big-IsNarrow = (
  long-IsNarrow,
  (
    long-IsNarrow,
    (
      long-IsNarrow,
      (
        long-IsNarrow,
        (long-IsNarrow, (long-IsNarrow, (narrow Kind.float 4 (omega arith) (omega arith), tt))),
      ),
    ),
  ),
)

abbrev summary : Option (List ArgLocation × ℕ) → Option (List Reg × List Reg × ℕ)
summary none = none
summary (some (locs, size)) = some (regs_of false locs, regs_of true locs, size)

-- With the address of the result in rdi, the sixth integer goes to the stack.
big_locations :
    summary (allocate_param_locations big_sig Arch.x86)
    ≡ some (rdi ∷ rsi ∷ rdx ∷ rcx ∷ r8 ∷ r9 ∷ [], xmm 0 ∷ [], 8)
unfolding allocate_param_locations regs_of Abi.register Abi.stack fold_m
big_locations = refl

allocate_param_locations-InOrder_example :
    Returns
      (allocate_param_locations big_sig Arch.aarch64)
      (λ r. InOrder Arch.aarch64 big_sig.ret r.0)
allocate_param_locations-InOrder_example =
    allocate_param_locations-InOrder big_sig Arch.aarch64 big_slots

allocate_param_locations-Laid_example :
    Returns (allocate_param_locations big_sig Arch.x86) (λ r. Laid 0 r.0 r.1)
unfolding Abi.register
allocate_param_locations-Laid_example =
    allocate_param_locations-Laid big_sig Arch.x86 big_slots big-IsNarrow (omega arith)

allocate_return_locations_in_order_example :
    Returns (allocate_return_locations small_sig Arch.x86) (λ locs.
      (regs_of false locs ≡ take (int_count small_sig.ret) (rax ∷ rdx ∷ []))
      × (regs_of true locs ≡ take (float_count small_sig.ret) x86_float_reg_order))
unfolding Abi.register
allocate_return_locations_in_order_example =
    allocate_return_locations_in_order small_sig Arch.x86
      (
        record { unallocated = refl; no_reg = refl },
        (record { unallocated = refl; no_reg = refl }, tt),
      )
      (((omega arith), refl), (omega arith), (omega arith), (tt, (omega arith), (omega arith), tt))

abbrev wide : ArgLocation
wide = Abi.register Kind.integral 16

abbrev five_used : Slots
five_used = record { args = []; ints_used = 5; floats_used = 0; stack_offset = 0 }

spilled_int128-overruns_example :
    Returns (alloc_step Arch.x86 five_used wide) (λ t. ¬ Laid 0 t.args t.stack_offset)
unfolding Abi.register
spilled_int128-overruns_example =
    spilled_int128-overruns Arch.x86 five_used wide
      (record {
        fresh = record { unallocated = refl; no_reg = refl };
        kinded = (refl, inr (inr refl));
        aligned = λ e. cc;
      })
      refl refl refl (omega arith) (omega arith)

spilled_floats-size_example :
    Returns (allocate_param_locations (float_sig 2) Arch.x86) (λ r. r.1 ≡ 8)
spilled_floats-size_example = spilled_floats-size 2 Arch.x86 (omega arith)

int128_return-falls_through_example :
    Returns
      (allocate_return_locations (record { args = []; ret = wide ∷ [] }) Arch.x86)
      (λ locs. (regs_of false locs ≡ rax ∷ rdx ∷ []) × (regs_of true locs ≡ xmm 0 ∷ []))
unfolding Abi.register
int128_return-falls_through_example =
    int128_return-falls_through Arch.x86 wide (record { unallocated = refl; no_reg = refl }) refl
      refl refl
