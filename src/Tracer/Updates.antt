-- ===== src/Tracer/Updates.antt =====
-- runtime/tracer/track_memory_map.c: update_memory_map. `none` is `exit(1)` or a panic.
use ia2_phase.MemoryMap.{IntervalTree}
use ia2_phase.MemoryMap.Operations.{
  MemoryMap, map_add_region, unmap_region, region_get_prot, mprotect_region, pkey_mprotect_region,
  clear,
}
use ia2_phase.Tracer.{
  EventInfo, MmapInfo, MremapInfo, mmap, munmap, mremap, madvise, mprotect, pkey_mprotect, clone,
  exec, exit, no_event, has_flag, map_fixed, map_stack, mremap_dontunmap, prot_indeterminate,
}
use ia2_phase.Base.{ℕ, Bool, Option, some, if◌then◌else◌, ◌==◌, not, true, assert, ◌>>=◌, ◌>>◌}

module _ (t : IntervalTree) where
  -- The stack of a new thread belongs to compartment 0.
  abbrev pub mmap_owner : MmapInfo → ℕ
  mmap_owner info = if has_flag info.flags map_stack then 0 else info.pkey

  unfoldable pub update_mmap : MmapInfo → MemoryMap t → Option (Bool × MemoryMap t)
  unfolding has_flag map_add_region unmap_region
  update_mmap info m =
      let fixed : Option (Bool × MemoryMap t) = unmap_region t info.range m >>= λ u.
      some (map_add_region t info.range (mmap_owner info) info.prot u) in
      if has_flag info.flags map_fixed
      then fixed
      else some (map_add_region t info.range (mmap_owner info) info.prot m)

  unfoldable pub update_mremap : MremapInfo → MemoryMap t → Option (Bool × MemoryMap t)
  unfolding has_flag map_add_region unmap_region region_get_prot
  update_mremap info m = do
    prot ← region_get_prot t m info.old_range
    assert (not (prot == prot_indeterminate))
    u ← (if has_flag info.flags mremap_dontunmap then some m else unmap_region t info.old_range m)
    some (map_add_region t info.new_range info.pkey prot u)

  unfoldable pub update_memory_map : EventInfo → MemoryMap t → Option (Bool × MemoryMap t)
  unfolding update_mmap update_mremap unmap_region mprotect_region pkey_mprotect_region clear
  update_memory_map (mmap info) m = update_mmap info m
  update_memory_map (munmap info) m = unmap_region t info.range m >>= λ u. some (true, u)
  update_memory_map (mremap info) m = update_mremap info m
  update_memory_map (madvise info) m = some (true, m)
  update_memory_map (mprotect info) m = mprotect_region t info.range info.prot m
  update_memory_map (pkey_mprotect info) m = pkey_mprotect_region t info.range info.new_owner_pkey m
  update_memory_map clone m = some (true, m)
  update_memory_map exec m = some (true, clear t m)
  update_memory_map exit m = some (true, m)
  update_memory_map no_event m = some (true, m)
