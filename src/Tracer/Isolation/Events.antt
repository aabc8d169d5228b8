-- ===== src/Tracer/Isolation/Events.antt =====
-- One event that the policy permits, with its effect on the memory map.
use ia2_phase.MemoryMap.{IntervalTree}
use ia2_phase.MemoryMap.Operations.{
  MemoryMap, region_get_prot, all_overlapping_regions_have_pkey, unmap_region,
}
use ia2_phase.MemoryMap.Splits.Whole.{Fits, IsValid}
use ia2_phase.Tracer.{
  EventInfo, MmapInfo, MremapInfo, mmap, munmap, mremap, madvise, mprotect, pkey_mprotect, clone,
  exec, exit, no_event, has_flag, map_fixed, mremap_dontunmap, prot_indeterminate,
}
use ia2_phase.Tracer.Policy.{is_op_permitted}
use ia2_phase.Tracer.Updates.{update_memory_map, update_mmap, update_mremap, mmap_owner}
use ia2_phase.Tracer.Syscalls.{with_result}
use ia2_phase.Tracer.Isolation.Steps.{
  Isolated, Isolated-refl, Isolated-trans, add-Isolated, unmap-Isolated, mprotect-Isolated,
  pkey_mprotect-Isolated,
}
use ia2_phase.Base.{
  ℕ, some, if◌then◌else◌, ◌==◌, ◌≡◌, ◌≢◌, true, false, not, refl, sym, subst, Returns, Returns->>=,
  Bool-cases, inl, inr, some-injective,
}

-- The compartment that an event is from.
abbrev pub event_pkey : EventInfo → ℕ
event_pkey (mmap info) = info.pkey
event_pkey (munmap info) = info.pkey
event_pkey (mremap info) = info.pkey
event_pkey (madvise info) = info.pkey
event_pkey (mprotect info) = info.pkey
event_pkey (pkey_mprotect info) = info.pkey
event_pkey clone = 0
event_pkey exec = 0
event_pkey exit = 0
event_pkey no_event = 0

-- No range of the event is empty or wraps.
abbrev pub EventFits : EventInfo → Type 0
EventFits (mmap info) = Fits info.range
EventFits (munmap info) = Fits info.range
EventFits (mremap info) = Fits info.old_range × Fits info.new_range
EventFits (madvise info) = Unit
EventFits (mprotect info) = Fits info.range
EventFits (pkey_mprotect info) = Fits info.range
EventFits clone = Unit
EventFits exec = Unit
EventFits exit = Unit
EventFits no_event = Unit

-- The kernel maps at the address that was asked for if the flag MAP_FIXED is given.
abbrev pub IsResult : ℕ → EventInfo → Type 0
IsResult retval (mmap info) = has_flag info.flags map_fixed ≡ true → retval ≡ info.range.start
IsResult retval event = Unit

module _ (t : IntervalTree) where
  -- The region to be moved has one protection.
  abbrev pub IsRemappable : MemoryMap t → EventInfo → Type 0
  IsRemappable m (mremap info) =
      (prot : ℕ) × (region_get_prot t m info.old_range ≡ some prot)
      × ((prot == prot_indeterminate) ≡ false)
  IsRemappable m event = Unit

  update_mmap-Isolated :
      (m : MemoryMap t) (info : MmapInfo)
      → IsValid t m
      → Fits info.range
      → (has_flag info.flags map_fixed ≡ true
          → all_overlapping_regions_have_pkey t m info.range info.pkey ≡ true)
      → Returns (update_mmap t info m) (λ result. Isolated t info.pkey m result.1)
  unfolding update_mmap
  update_mmap-Isolated m info v f own = elim (Bool-cases (has_flag info.flags map_fixed)) [
    | inl h ↦ rw h (
        Returns->>= _ (unmap_region t info.range m) _
          (unmap-Isolated t info.pkey info.range m v f (own h))
          (λ u k.
            Isolated-trans t info.pkey m u _ k
              (add-Isolated t info.pkey (mmap_owner t info) info.prot info.range u k.valid f)))
    | inr h ↦ rw h (add-Isolated t info.pkey (mmap_owner t info) info.prot info.range m v f)
  ]

  update_mremap-Isolated :
      (m : MemoryMap t) (info : MremapInfo)
      → IsValid t m
      → Fits info.old_range
      → Fits info.new_range
      → IsRemappable m (mremap info)
      → all_overlapping_regions_have_pkey t m info.old_range info.pkey ≡ true
      → Returns (update_mremap t info m) (λ result. Isolated t info.pkey m result.1)
  unfolding update_mremap
  update_mremap-Isolated m info v f f' (prot, e, known) own = rw e (
      rw known (elim (Bool-cases (has_flag info.flags mremap_dontunmap)) [
        | inl h ↦ rw h (add-Isolated t info.pkey info.pkey prot info.new_range m v f')
        | inr h ↦ rw h (
            Returns->>= _ (unmap_region t info.old_range m) _
              (unmap-Isolated t info.pkey info.old_range m v f own)
              (λ u k.
                Isolated-trans t info.pkey m u _ k
                  (add-Isolated t info.pkey info.pkey prot info.new_range u k.valid f')))
      ]))

  -- After initialization, if the policy permits an event of a compartment (not an exec) in a valid
  -- map, then the update by the completed system call runs to its end, without a panic or an exit.
  -- Whether it accepts or refuses the change (a refusal ends the loop), the map it leaves is valid,
  -- and every address of a compartment other than 0 and the caller is still mapped, with its owner.
  -- Ranges are not empty and do not wrap, a fixed mapping is at the address asked for, and a region
  -- to be moved has one protection.
  pub event-Isolated :
      (m : MemoryMap t) (event : EventInfo) (retval : ℕ)
      → IsValid t m
      → m.init_finished ≡ true
      → event ≢ exec
      → EventFits (with_result retval event)
      → IsResult retval event
      → IsRemappable m event
      → is_op_permitted t m event ≡ some true
      → Returns
          (update_memory_map t (with_result retval event) m)
          (λ result. Isolated t (event_pkey event) m result.1)
  unfolding update_memory_map with_result is_op_permitted
  event-Isolated m (mmap info) retval v done x f res rem ok =
      update_mmap-Isolated m (record info { range = record info.range { start = retval } }) v f
        (λ h.
          let checked : some (all_overlapping_regions_have_pkey t m info.range info.pkey)
              ≡ some true =
            subst
              (λ b.
                (if not b
                  then some true
                  else some (all_overlapping_regions_have_pkey t m info.range info.pkey))
                ≡ some true)
              h ok in
          subst
            (λ start.
              all_overlapping_regions_have_pkey t m (record info.range { start = start }) info.pkey
              ≡ true)
            (sym (res h)) (some-injective _ _ checked))
  event-Isolated m (munmap info) retval v done x f res rem ok =
      Returns->>= _ (unmap_region t info.range m) _
        (unmap-Isolated t info.pkey info.range m v f (some-injective _ _ ok)) (λ u k. k)
  event-Isolated m (mremap info) retval v done x f res rem ok =
      update_mremap-Isolated m
        (record info { new_range = record info.new_range { start = retval } }) v f.0 f.1 rem
        (some-injective _ _ ok)
  event-Isolated m (madvise info) retval v done x f res rem ok = Isolated-refl t info.pkey m v
  event-Isolated m (mprotect info) retval v done x f res rem ok =
      mprotect-Isolated t info.pkey info.prot info.range m v f
  event-Isolated m (pkey_mprotect info) retval v done x f res rem ok =
      pkey_mprotect-Isolated t info.pkey info.new_owner_pkey info.range m v f done
  event-Isolated m clone retval v done x f res rem ok = Isolated-refl t 0 m v
  event-Isolated m exec retval v done x f res rem ok = absurd (x refl)
  event-Isolated m exit retval v done x f res rem ok = Isolated-refl t 0 m v
  event-Isolated m no_event retval v done x f res rem ok = Isolated-refl t 0 m v
