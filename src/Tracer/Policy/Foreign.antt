-- ===== src/Tracer/Policy/Foreign.antt =====
-- Operations on memory that belongs to another compartment.
use ia2_phase.MemoryMap.{IntervalTree, RegionState, Range}
use ia2_phase.MemoryMap.Operations.{MemoryMap, all_overlapping_regions_have_pkey}
use ia2_phase.MemoryMap.Splits.Whole.{Fits, IsValid, lookup, in_pages}
use ia2_phase.MemoryMap.Checks.{all_overlapping_regions_iff}
use ia2_phase.Tracer.{
  EventInfo, mmap, munmap, mremap, madvise, mprotect, pkey_mprotect, clone, exec, exit, no_event,
  has_flag, map_fixed,
}
use ia2_phase.Tracer.Policy.{is_op_permitted}
use ia2_phase.Tracer.Isolation.Events.{event_pkey}
use ia2_phase.Base.{
  ℕ, Option, some, none, ◌==◌, ◌≡◌, ◌≢◌, true, false, arith, sym, Bool-cases, inl, inr,
  if◌then◌else◌, ==_iff, some-injective, ap, subst,
}

-- The range whose owner the policy looks at before the event: for a mremap only the old one.
abbrev pub taken_range : EventInfo → Option Range
taken_range (mmap info) = if has_flag info.flags map_fixed then some info.range else none
taken_range (munmap info) = some info.range
taken_range (mremap info) = some info.old_range
taken_range (madvise info) = some info.range
taken_range (mprotect info) = none
taken_range (pkey_mprotect info) = none
taken_range clone = none
taken_range exec = none
taken_range exit = none
taken_range no_event = none

module _ (t : IntervalTree) (m : MemoryMap t) (v : IsValid t m) (a : ℕ) (s : RegionState)
    (mapped : lookup t m a ≡ some s) where
  not_owned :
      (r : Range) (pkey : ℕ)
      → Fits r
      → in_pages r a ≡ true
      → s.owner_pkey ≢ pkey
      → all_overlapping_regions_have_pkey t m r pkey ≡ false
  unfolding all_overlapping_regions_have_pkey
  not_owned r pkey f i other = elim (Bool-cases (all_overlapping_regions_have_pkey t m r pkey)) [
    | inl h ↦ absurd (
        other (
          sym (
            (==_iff pkey s.owner_pkey).0 (
              (all_overlapping_regions_iff t m r (λ s. pkey == s.owner_pkey) v f).0 h a s i
                mapped))))
    | inr h ↦ h
  ]

  -- In a valid map, the policy refuses a munmap, mremap, madvise or fixed mmap whose range (for mremap
  -- the old one; not empty, without wrap) touches a page of another compartment than the caller's.
  pub is_op_permitted-foreign :
      (event : EventInfo) (r : Range)
      → taken_range event ≡ some r
      → Fits r
      → in_pages r a ≡ true
      → s.owner_pkey ≢ event_pkey event
      → is_op_permitted t m event ≡ some false
  unfolding is_op_permitted
  is_op_permitted-foreign (mmap info) r e f i other =
      elim (Bool-cases (has_flag info.flags map_fixed)) [
        | inl h ↦
            let same : r ≡ info.range = ground arith in
            rw h (
              ap some (
                subst (λ z. all_overlapping_regions_have_pkey t m z info.pkey ≡ false) same
                  (not_owned r info.pkey f i other)))
        | inr h ↦ absurd (ground arith)
      ]
  is_op_permitted-foreign (munmap info) r e f i other =
      let same : r ≡ info.range = sym (some-injective _ _ e) in
      ap some (
        subst (λ z. all_overlapping_regions_have_pkey t m z info.pkey ≡ false) same
          (not_owned r info.pkey f i other))
  is_op_permitted-foreign (mremap info) r e f i other =
      let same : r ≡ info.old_range = sym (some-injective _ _ e) in
      ap some (
        subst (λ z. all_overlapping_regions_have_pkey t m z info.pkey ≡ false) same
          (not_owned r info.pkey f i other))
  is_op_permitted-foreign (madvise info) r e f i other =
      let same : r ≡ info.range = sym (some-injective _ _ e) in
      ap some (
        subst (λ z. all_overlapping_regions_have_pkey t m z info.pkey ≡ false) same
          (not_owned r info.pkey f i other))
  is_op_permitted-foreign (mprotect info) r e f i other = cc
  is_op_permitted-foreign (pkey_mprotect info) r e f i other = cc
  is_op_permitted-foreign clone r e f i other = cc
  is_op_permitted-foreign exec r e f i other = cc
  is_op_permitted-foreign exit r e f i other = cc
  is_op_permitted-foreign no_event r e f i other = cc
