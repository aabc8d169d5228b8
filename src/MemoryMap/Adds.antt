-- ===== src/MemoryMap/Adds.antt =====
-- `add_region`: what a new region does to the states of the addresses, and when it is refused.
use ia2_phase.MemoryMap.{
  IntervalTree, Interval, Range, RegionState, range_end, round_to_4k, keep, overlaps,
}
use ia2_phase.MemoryMap.Operations.{MemoryMap, add_region, overlapping, add_at}
use ia2_phase.MemoryMap.Views.{
  IsSorted, state_at, within, keep-IsSorted, keep-All, state_at-keep, max_cases,
}
use ia2_phase.MemoryMap.Inserts.{IsPage, insert-Inserted}
use ia2_phase.MemoryMap.Splits.Whole.{Fits, page_start, page_end, lookup, IsValid, round_to_4k_lem}
use ia2_phase.Base.{
  ℕ, List, none, some, [], ◌∷◌, ◌<◌, ◌≡◌, ◌≢◌, ◌==◌, ◌&&◌, arith, refl, if◌then◌else◌, Bool, true,
  false, max, sym, subst, All,
}

pub keep-none :
    (lo hi : ℕ) (xs : List Interval) (a : ℕ)
    → keep (overlaps lo hi) xs ≡ []
    → within lo hi a ≡ true
    → state_at xs a ≡ none
unfolding keep state_at
keep-none lo hi [] a e h = refl
keep-none lo hi (x ∷ xs) a e h = ground (arith, keep-none lo hi xs a)

-- An entry that overlaps the range holds an address of it.
pub keep-some :
    (lo hi base : ℕ) (xs : List Interval) (y : Interval) (ys : List Interval)
    → lo < hi
    → IsSorted base xs
    → keep (overlaps lo hi) xs ≡ y ∷ ys
    → (a : ℕ) × (within lo hi a ≡ true) × (state_at xs a ≢ none)
unfolding state_at
keep-some lo hi base xs y ys n s e =
    let sy : IsSorted base (y ∷ ys) =
      subst (IsSorted base) e (keep-IsSorted (overlaps lo hi) base xs s) in
    let oy : overlaps lo hi y ≡ true =
      (subst (All (λ x. overlaps lo hi x ≡ true)) e (keep-All (overlaps lo hi) xs)).0 in
    let a = max y.start lo in
    let mx = max_cases y.start lo in
    let k = (state_at-keep (overlaps lo hi) base xs a s).0 in
    let here : state_at (keep (overlaps lo hi) xs) a ≡ some y.state = rw e (ground arith) in
    (a, ground arith, λ h. ground (arith, k, here))

module _ (t : IntervalTree) where
  -- A region was added, or refused because one of its pages has a state.
  pub record Added (m : MemoryMap t) (lo hi : ℕ) (s : RegionState) (result : Bool × MemoryMap t)
      : Type 0 where
    pub valid : IsValid t result.1
    pub same_init : result.1.init_finished ≡ m.init_finished
    pub states :
        (a : ℕ)
        → lookup t result.1 a ≡ (if result.0 && within lo hi a then some s else lookup t m a)
    pub free : result.0 ≡ true → (a : ℕ) → within lo hi a ≡ true → lookup t m a ≡ none
    pub taken : result.0 ≡ false → (a : ℕ) × (within lo hi a ≡ true) × (lookup t m a ≢ none)

  add_at-Added :
      (lo hi : ℕ) (s : RegionState) (m : MemoryMap t) (xs : List Interval)
      → IsValid t m
      → lo < hi
      → IsPage lo
      → IsPage hi
      → keep (overlaps lo hi) (t.iter m.regions) ≡ xs
      → Added m lo hi s (add_at t lo hi s m xs)
  unfolding add_at
  add_at-Added lo hi s m [] v n p q e =
      let free = λ (a : ℕ) (h : within lo hi a ≡ true). keep-none lo hi (t.iter m.regions) a e h in
      let i = insert-Inserted t m.regions lo hi s v n p q free in
      record {
        valid = i.sorted;
        same_init = refl;
        states = i.states;
        free = λ h. free;
        taken = λ h. cc;
      }
  add_at-Added lo hi s m (x ∷ xs) v n p q e = record {
    valid = v;
    same_init = refl;
    states = λ a. refl;
    free = λ h. cc;
    taken = λ h. keep-some lo hi 0 (t.iter m.regions) x xs n v e;
  }

  -- For a valid map and a range that is not empty and does not wrap, adding a region keeps the map
  -- valid and the mark of initialization. It is refused exactly if some address of the range's
  -- pages has a state, and then changes nothing; else these addresses get the state, and no other
  -- address changes.
  pub add_region-Added :
      (r : Range) (s : RegionState) (m : MemoryMap t)
      → IsValid t m
      → Fits r
      → Added m (page_start r) (page_end r) s (add_region t r s m)
  unfolding add_region overlapping
  add_region-Added r s m v f =
      let (es, ee, n, p, q) = round_to_4k_lem r f in
      let lo = page_start r in
      let hi = range_end (round_to_4k r) in
      let e0 : (r.len == 0) ≡ false = ground arith in
      let n' : lo < hi = rw ee n in
      subst (λ stop. Added m lo stop s (add_region t r s m)) ee
        (rw e0 (
          add_at-Added lo hi s m (t.range m.regions lo hi) v n' p (rw ee q)
            (sym (t.range-overlaps m.regions lo hi n'))))
