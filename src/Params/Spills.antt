-- ===== src/Params/Spills.antt =====
-- The scalars for which the stack area of allocate_param_locations is not the psABI's: 16-byte
-- integers and vector scalars of less than 8 bytes that find no register.
use ia2_phase.Params.Layout.{Laid, extent}
use ia2_phase.Abi
use ia2_phase.Params.Progress.{IsSlot, alloc_step-ne-none}
use ia2_phase.Params.{
  Slots, allocate_param_locations, int_param_reg_order, alloc_step, push_back, float_reg_order,
}
use ia2_phase.Abi.{Arch, AbiSignature, ArgLocation, Kind}
use ia2_phase.Base.{
  ℕ, ◌<◌, List, Returns, [], replicate, ◌≡◌, ◌*◌, ◌++◌, false, length, ◌≤◌, ◌+◌, fold_m, returns,
  some, true, arith, ◌∷◌, suc, zero, Returns->>=, Returns-map, refl, map,
}

Laid-last :
    (lo hi : ℕ) (ls : List ArgLocation) (l : ArgLocation)
    → l.on_stack ≡ true
    → Laid lo (push_back ls l) hi
    → l.stack_offset + extent l ≤ hi
Laid-last lo hi [] l h p = ground arith
Laid-last lo hi (x ∷ ls) l h p =
    ground (arith, Laid-last lo hi ls l h, Laid-last (x.stack_offset + extent x) hi ls l h)

spilled_int128_lem :
    (arch : Arch) (s t : Slots) (l : ArgLocation)
    → IsSlot l
    → l.kind ≡ Kind.integral
    → l.raw_size ≡ 16
    → l.indirect_on_stack ≡ false
    → length (int_param_reg_order arch) ≤ s.ints_used + 1
    → s.stack_offset + 16 < 18446744073709551616
    → alloc_step arch s l ≡ some t
    → ¬ Laid 0 t.args t.stack_offset
unfolding alloc_step
spilled_int128_lem arch s t l h k z d full room e laid = ground (
  arith,
  Laid-last 0 t.stack_offset s.args
      (record l { allocated = true; on_stack = true; stack_offset = s.stack_offset }),
)

-- For a 16-byte integer slot that finds fewer than two integer registers left, the step of the
-- loop returns, and the stack locations no longer lie apart below the stack size: the slot of
-- 8 bytes that the integer gets ends before its 16 bytes do.
pub spilled_int128-overruns :
    (arch : Arch) (s : Slots) (l : ArgLocation)
    → IsSlot l
    → l.kind ≡ Kind.integral
    → l.raw_size ≡ 16
    → l.indirect_on_stack ≡ false
    → length (int_param_reg_order arch) ≤ s.ints_used + 1
    → s.stack_offset + 16 < 18446744073709551616
    → Returns (alloc_step arch s l) (λ t. ¬ Laid 0 t.args t.stack_offset)
spilled_int128-overruns arch s l h k z d full room =
    returns _ (alloc_step-ne-none arch s l h)
      λ t e laid. spilled_int128_lem arch s t l h k z d full room e laid

-- `float`, `n` times behind the eight that fill the vector registers.
abbrev floats : ℕ → List ArgLocation
floats n = replicate 8 (Abi.register Kind.float 4) ++ replicate n (Abi.register Kind.float 4)

abbrev pub float_sig : ℕ → AbiSignature
float_sig n = record { args = floats n; ret = [] }

-- The location of one spilled `float`.
abbrev spilled : ℕ → ArgLocation
spilled offset =
    let l = Abi.register Kind.float 4 in
    record l { allocated = true; on_stack = true; stack_offset = offset }

spill_step :
    (arch : Arch) (s : Slots)
    → s.floats_used ≡ 8
    → s.stack_offset + 4 < 18446744073709551616
    → alloc_step arch s (Abi.register Kind.float 4)
      ≡ some (record s {
        args = push_back s.args (spilled s.stack_offset);
        stack_offset = s.stack_offset + 4;
      })
unfolding alloc_step Abi.register
spill_step Arch.x86 s full room = ground arith
spill_step Arch.aarch64 s full room = ground arith

spill_loop :
    (arch : Arch) (n : ℕ) (s : Slots)
    → s.floats_used ≡ 8
    → s.stack_offset + 4 * n < 18446744073709551616
    → Returns
        (fold_m (alloc_step arch) s (replicate n (Abi.register Kind.float 4)))
        (λ t. t.stack_offset ≡ s.stack_offset + 4 * n)
unfolding fold_m
spill_loop arch zero s full room = omega arith
spill_loop arch (suc n) s full room =
    let next = record s {
      args = push_back s.args (spilled s.stack_offset);
      stack_offset = s.stack_offset + 4;
    } in
    rw (spill_step arch s full (omega arith)) (
      Returns-map (fold_m (alloc_step arch) next (replicate n (Abi.register Kind.float 4)))
        (spill_loop arch n next full (omega arith)) (λ t h. omega arith))

-- After the eight floats in registers.
abbrev all_vectors_used : Arch → Slots
all_vectors_used arch = record {
  args =
      map (λ r. let l = Abi.register Kind.float 4 in record l { allocated = true; reg = some r })
        (float_reg_order arch);
  ints_used = 0;
  floats_used = 8;
  stack_offset = 0;
}

-- On a signature of 8 + n `float` parameters the allocation returns, and the stack arguments take
-- 4 * n bytes, where the psABI gives each of the n an eightbyte.
pub spilled_floats-size :
    (n : ℕ) (arch : Arch)
    → n < 4294967296
    → Returns (allocate_param_locations (float_sig n) arch) (λ r. r.1 ≡ 4 * n)
unfolding allocate_param_locations fold_m Abi.register
spilled_floats-size n Arch.x86 h =
    Returns->>= (λ (r : List ArgLocation × ℕ). r.1 ≡ 4 * n) _
      (λ (t : Slots). some (t.args, t.stack_offset))
      (spill_loop Arch.x86 n (all_vectors_used Arch.x86) refl (omega arith))
      (λ t e. omega (arith, e))
spilled_floats-size n Arch.aarch64 h =
    Returns->>= (λ (r : List ArgLocation × ℕ). r.1 ≡ 4 * n) _
      (λ (t : Slots). some (t.args, t.stack_offset))
      (spill_loop Arch.aarch64 n (all_vectors_used Arch.aarch64) refl (omega arith))
      (λ t e. omega (arith, e))
