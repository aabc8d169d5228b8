-- ===== src/Tracer/Policy.antt =====
-- runtime/tracer/track_memory_map.c: is_op_permitted. `none` is a panic of the memory map.
pub mod Sealed
pub mod Foreign
use ia2_phase.MemoryMap.{IntervalTree}
use ia2_phase.MemoryMap.Operations.{
  MemoryMap, all_overlapping_regions_have_pkey, all_overlapping_regions_mprotected,
  all_overlapping_regions_pkey_mprotected, region_get_prot,
}
use ia2_phase.Tracer.{
  EventInfo, MprotectInfo, PkeyMprotectInfo, mmap, munmap, mremap, madvise, mprotect, pkey_mprotect,
  clone, exec, exit, no_event, has_flag, map_fixed, prot_write, prot_indeterminate,
}
use ia2_phase.Base.{ℕ, Bool, Option, some, if◌then◌else◌, ◌==◌, ◌&&◌, ◌||◌, not, true, false}
use mathlib.Core.Option

-- Memory that is writable already, or its current protection.
unfoldable pub prot_allows : ℕ → ℕ → Bool
unfolding has_flag
prot_allows wanted prot =
    (not (prot == prot_indeterminate) && has_flag prot prot_write) || prot == wanted

module _ (t : IntervalTree) where
  unfoldable pub mprotect_permitted : MemoryMap t → MprotectInfo → Option Bool
  unfolding all_overlapping_regions_mprotected region_get_prot prot_allows
  mprotect_permitted m info =
      let impacts_only_unprotected_memory =
        all_overlapping_regions_mprotected t m info.range false in
      let by_prot : Option Bool =
        Option.map (prot_allows info.prot) (region_get_prot t m info.range) in
      if impacts_only_unprotected_memory
      then some true
      else if not m.init_finished
      then some true
      else by_prot

  unfoldable pub pkey_mprotect_permitted : MemoryMap t → PkeyMprotectInfo → Bool
  unfolding all_overlapping_regions_pkey_mprotected
  pkey_mprotect_permitted m info =
      let impacts_only_unprotected_memory =
        all_overlapping_regions_pkey_mprotected t m info.range false in
      let sets_our_key = info.new_owner_pkey == info.pkey in
      if impacts_only_unprotected_memory && sets_our_key
      then true
      else info.pkey == 0 && not sets_our_key

  unfoldable pub is_op_permitted : MemoryMap t → EventInfo → Option Bool
  unfolding all_overlapping_regions_have_pkey mprotect_permitted pkey_mprotect_permitted has_flag
  is_op_permitted m (mmap info) =
      if not (has_flag info.flags map_fixed)
      then some true
      else some (all_overlapping_regions_have_pkey t m info.range info.pkey)
  is_op_permitted m (munmap info) =
      some (all_overlapping_regions_have_pkey t m info.range info.pkey)
  is_op_permitted m (mremap info) =
      some (all_overlapping_regions_have_pkey t m info.old_range info.pkey)
  is_op_permitted m (madvise info) =
      some (all_overlapping_regions_have_pkey t m info.range info.pkey)
  is_op_permitted m (mprotect info) = mprotect_permitted m info
  is_op_permitted m (pkey_mprotect info) = some (pkey_mprotect_permitted m info)
  is_op_permitted m clone = some true
  is_op_permitted m exec = some true
  is_op_permitted m exit = some true
  is_op_permitted m no_event = some true
