-- ===== src/MemoryMap/Protects.antt =====
-- `mprotect` and `pkey_mprotect` of a range: the parts of the regions in it are taken out, changed
-- and added again.
use ia2_phase.MemoryMap.{IntervalTree, Interval, Range, RegionState}
use ia2_phase.MemoryMap.Operations.{
  MemoryMap, add_back, add_region, split_out_region, pkey_mprotect_region, mprotect_region,
  reprotect, contains_holes, pkey_mprotected_state, mprotected_state, all_overlapping_regions,
  may_pkey_mprotect,
}
use ia2_phase.MemoryMap.Views.{IsSorted, state_at, within, or_else, state_at-below}
use ia2_phase.MemoryMap.Inserts.{between, from_bounds-lt}
use ia2_phase.MemoryMap.Splits.Whole.{
  Fits, in_pages, page_start, page_end, lookup, IsValid, split_out_region-Split,
}
use ia2_phase.MemoryMap.Adds.{Added, add_region-Added}
use ia2_phase.Base.{
  ℕ, List, Option, none, some, [], ◌∷◌, ◌≡◌, arith, refl, if◌then◌else◌, Bool, true, false, ◌∙◌,
  ◌⊎◌, Returns, ◌>>=◌, subst, Returns-map, Returns->>=, not, ◌&&◌, Bool-cases, inl, inr,
}

abbrev pub map_state : (RegionState → RegionState) → Option RegionState → Option RegionState
map_state f none = none
map_state f (some s) = some (f s)

module _ (t : IntervalTree) (change : RegionState → RegionState) where
  -- The regions are back with their new states, and no assertion failed.
  record Back (parts : List Interval) (m after : MemoryMap t) : Type 0 where
    valid : IsValid t after
    same_init : after.init_finished ≡ m.init_finished
    states :
        (a : ℕ) → lookup t after a ≡ or_else (map_state change (state_at parts a)) (lookup t m a)

  accepted :
      (x : Interval) (m : MemoryMap t) (result : Bool × MemoryMap t)
      → Added t m x.start x.stop (change x.state) result
      → ((a : ℕ) → within x.start x.stop a ≡ true → lookup t m a ≡ none)
      → (u : MemoryMap t) × (result ≡ (true, u)) × Back (x ∷ []) m u
  unfolding state_at
  accepted x m (true, u) i free = (
    u,
    refl,
    record { valid = i.valid; same_init = i.same_init; states = λ a. ground (arith, i.states a) },
  )
  accepted x m (false, u) i free = let (a, h, k) = i.taken refl in absurd (k (free a h))

  add_one :
      (x : Interval) (m : MemoryMap t)
      → IsValid t m
      → IsSorted 0 (x ∷ [])
      → ((a : ℕ) → within x.start x.stop a ≡ true → lookup t m a ≡ none)
      → (u : MemoryMap t) × (add_region t (between x.start x.stop) (change x.state) m ≡ (true, u))
        × Back (x ∷ []) m u
  add_one x m v s free =
      let r = between x.start x.stop in
      let i = add_region-Added t r (change x.state) m v (omega arith, omega arith) in
      let lo : page_start r ≡ x.start = omega arith in
      let hi : page_end r ≡ x.stop = omega arith in
      accepted x m _
        (subst (λ a. Added t m a x.stop (change x.state) (add_region t r (change x.state) m)) lo
          (subst
            (λ b. Added t m (page_start r) b (change x.state) (add_region t r (change x.state) m))
            hi i))
        free

  add_back-Back :
      (parts : List Interval) (base : ℕ) (m : MemoryMap t)
      → IsValid t m
      → IsSorted base parts
      → ((a : ℕ) → (state_at parts a ≡ none) ⊎ (lookup t m a ≡ none))
      → Returns (add_back t change parts m) (Back parts m)
  unfolding add_back state_at
  add_back-Back [] base m v s apart = record { valid = v; same_init = refl; states = λ a. refl }
  add_back-Back (x ∷ xs) base m v s apart =
      let (u, e, b) =
        add_one x m v (omega arith, s.1, s.2, s.3, s.4, tt) (λ a h. ground (arith, apart a)) in
      let rest =
        add_back-Back xs x.stop u b.valid s.5
          (λ a. ground (arith, b.states a, apart a, state_at-below x.stop xs a s.5)) in
      rw (from_bounds-lt x.start x.stop s.1) (
        rw e (
          Returns-map (add_back t change xs u) rest (λ after k. record {
            valid = k.valid;
            same_init = k.same_init ∙ b.same_init;
            states = λ a. ground (arith, k.states a, b.states a, state_at-below x.stop xs a s.5);
          })))

  -- Taken out, changed and added again.
  pub record Changed (m : MemoryMap t) (r : Range) (after : MemoryMap t) : Type 0 where
    pub valid : IsValid t after
    pub same_init : after.init_finished ≡ m.init_finished
    pub states :
        (a : ℕ)
        → lookup t after a
          ≡ (if in_pages r a then map_state change (lookup t m a) else lookup t m a)

  change_lem :
      (b : Bool) (after parts left whole : Option RegionState)
      → after ≡ or_else (map_state change parts) left
      → left ≡ (if b then none else whole)
      → parts ≡ (if b then whole else none)
      → after ≡ (if b then map_state change whole else whole)
  change_lem true after parts left none e f g = ground arith
  change_lem true after parts left (some s) e f g = ground arith
  change_lem false after parts left whole e f g = ground arith

  pub reprotect-Changed :
      (m : MemoryMap t) (r : Range)
      → IsValid t m
      → Fits r
      → Returns (reprotect t change r m) (Changed m r)
  unfolding reprotect
  reprotect-Changed m r v f =
      Returns->>= _ (split_out_region t r m) _ (split_out_region-Split t m r v f) (λ split k.
        Returns-map (add_back t change split.1 split.0)
          (add_back-Back split.1 0 split.0 k.valid k.sorted
            (λ a. ground (arith, k.left a, k.taken a)))
          (λ after b. record {
            valid = b.valid;
            same_init = b.same_init ∙ k.same_init;
            states = λ a.
                change_lem (in_pages r a) _ (state_at split.1 a) (lookup t split.0 a) _ (b.states a)
                  (k.left a) (k.taken a);
          }))

-- The map after a change that was made or refused.
pub record Protected (t : IntervalTree) (change : RegionState → RegionState) (m : MemoryMap t)
    (r : Range) (made : Bool) (result : Bool × MemoryMap t) : Type 0 where
  pub outcome : result.0 ≡ made
  pub valid : IsValid t result.1
  pub same_init : result.1.init_finished ≡ m.init_finished
  pub states :
      (a : ℕ)
      → lookup t result.1 a
        ≡ (if made && in_pages r a then map_state change (lookup t m a) else lookup t m a)

made :
    (t : IntervalTree) (change : RegionState → RegionState) (m : MemoryMap t) (r : Range)
    → IsValid t m
    → Fits r
    → Returns
        (reprotect t change r m >>= (λ after. some (true, after)))
        (Protected t change m r true)
made t change m r v f =
    Returns->>= _ (reprotect t change r m) _ (reprotect-Changed t change m r v f) (λ after k.
      record { outcome = refl; valid = k.valid; same_init = k.same_init; states = k.states })

refused :
    (t : IntervalTree) (change : RegionState → RegionState) (m : MemoryMap t) (r : Range)
    → IsValid t m
    → Protected t change m r false (false, m)
refused t change m r v = record { outcome = refl; valid = v; same_init = refl; states = λ a. refl }

-- For a valid map and a range that is not empty and does not wrap, `mprotect` does not panic. It is
-- refused exactly if the range contains holes and then changes nothing; else it sets the
-- protection of the mapped addresses in the range's pages, marks them, and changes no other.
pub mprotect_region-Protected :
    (t : IntervalTree) (m : MemoryMap t) (r : Range) (prot : ℕ)
    → IsValid t m
    → Fits r
    → Returns
        (mprotect_region t r prot m)
        (Protected t (mprotected_state prot) m r (not (contains_holes t m r)))
unfolding mprotect_region
mprotect_region-Protected t m r prot v f = elim (Bool-cases (contains_holes t m r)) [
  | inl h ↦ rw h (refused t _ m r v)
  | inr h ↦ rw h (made t (mprotected_state prot) m r v f)
]

-- The conditions that `pkey_mprotect` checks.
abbrev pub pkey_mprotect_allowed : (t : IntervalTree) → MemoryMap t → Range → ℕ → Bool
pkey_mprotect_allowed t m r pkey =
    not (contains_holes t m r)
    && all_overlapping_regions t m r (may_pkey_mprotect m.init_finished pkey)

-- For a valid map and a range that is not empty and does not wrap, `pkey_mprotect` does not panic.
-- It is refused exactly if the range contains holes or a region that may not be protected, and then
-- changes nothing; else it marks the mapped addresses in the range's pages, gives those of
-- compartment 0 to the key (before the end of initialization all of them), and changes no other.
pub pkey_mprotect_region-Protected :
    (t : IntervalTree) (m : MemoryMap t) (r : Range) (pkey : ℕ)
    → IsValid t m
    → Fits r
    → Returns (pkey_mprotect_region t r pkey m) (
        Protected t
          (pkey_mprotected_state m.init_finished pkey)
          m
          r
          (pkey_mprotect_allowed t m r pkey))
unfolding pkey_mprotect_region
pkey_mprotect_region-Protected t m r pkey v f = elim (Bool-cases (contains_holes t m r)) [
  | inl h ↦ rw h (refused t _ m r v)
  | inr h ↦
      rw h
        (elim (Bool-cases
          (all_overlapping_regions t m r (may_pkey_mprotect m.init_finished pkey))) [
            | inl k ↦ rw k (made t (pkey_mprotected_state m.init_finished pkey) m r v f)
            | inr k ↦ rw k (refused t _ m r v)
          ])
]
