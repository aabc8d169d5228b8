-- ===== src/MemoryMap/Checks.antt =====
-- The tests of all regions that overlap a range, and `unmap_region`.
pub mod Holes
use ia2_phase.MemoryMap.{IntervalTree, Interval, Range, RegionState, keep, overlaps, range_end}
use ia2_phase.MemoryMap.Operations.{
  MemoryMap, all_regions, all_overlapping_regions, overlapping, unmap_region, split_out_region,
}
use ia2_phase.MemoryMap.Views.{
  IsSorted, state_at, within, or_else, state_at-keep, state_at-skip, keep-IsSorted, keep-All,
  max_cases, state_at-below,
}
use ia2_phase.MemoryMap.Splits.Whole.{
  Fits, in_pages, page_start, page_end, lookup, IsValid, Split, split_out_region-Split,
}
use ia2_phase.Base.{
  ℕ, List, Option, none, some, [], ◌∷◌, ◌<◌, ◌+◌, ◌≡◌, ◌%◌, ◌&&◌, arith, refl, if◌then◌else◌, Bool,
  not, true, false, sym, ◌∙◌, Returns, Bool-cases, inl, inr, All, ap₂, subst, ◌↔◌, max, ap,
  Returns->>=,
}

-- A region of whole pages overlaps a range exactly if it overlaps the pages of the range.
overlaps_pages :
    (r : Range) (x : Interval)
    → Fits r
    → x.start % 4096 ≡ 0
    → x.stop % 4096 ≡ 0
    → overlaps r.start (r.start + r.len) x ≡ overlaps (page_start r) (page_end r) x
overlaps_pages r x f p q = ground arith

pub keep_pages :
    (r : Range) (base : ℕ) (xs : List Interval)
    → Fits r
    → IsSorted base xs
    → keep (overlaps r.start (r.start + r.len)) xs ≡ keep (overlaps (page_start r) (page_end r)) xs
unfolding keep
keep_pages r base [] f s = refl
keep_pages r base (x ∷ xs) f s =
    ap₂ (λ (b : Bool) (ys : List Interval). if b then x ∷ ys else ys) (overlaps_pages r x f s.2 s.3)
      (keep_pages r x.stop xs f s.5)

all_regions-true :
    (q : RegionState → Bool) (xs : List Interval) (a : ℕ) (s : RegionState)
    → all_regions (λ x. q x.state) xs ≡ true
    → state_at xs a ≡ some s
    → q s ≡ true
unfolding all_regions state_at
all_regions-true q [] a s h e = cc
all_regions-true q (x ∷ xs) a s h e =
    let here : q x.state ≡ true = ground arith in
    let rest : all_regions (λ y. q y.state) xs ≡ true = ground arith in
    elim (Bool-cases (within x.start x.stop a)) [
      | inl i ↦ let same : x.state ≡ s = ground arith in subst (λ u. q u ≡ true) same here
      | inr o ↦ all_regions-true q xs a s rest (ground arith)
    ]

-- A state at an address of the range that fails the test.
abbrev Failing : (RegionState → Bool) → ℕ → ℕ → List Interval → Type 0
Failing q lo hi xs =
    (a : ℕ) × (s : RegionState) × (within lo hi a ≡ true) × (state_at xs a ≡ some s) × (q s ≡ false)

all_regions-false :
    (q : RegionState → Bool) (lo hi base : ℕ) (xs : List Interval)
    → lo < hi
    → IsSorted base xs
    → All (λ x. overlaps lo hi x ≡ true) xs
    → all_regions (λ x. q x.state) xs ≡ false
    → Failing q lo hi xs
unfolding all_regions state_at
all_regions-false q lo hi base [] n s o h = cc
all_regions-false q lo hi base (x ∷ xs) n s o h =
    let mx = max_cases x.start lo in
    elim (Bool-cases (q x.state)) [
      | inl k ↦
          let (a, u, i, e, f) = all_regions-false q lo hi x.stop xs n s.5 o.1 (ground arith) in
          (a, u, i, ground (arith, state_at-below x.stop xs a s.5), f)
      | inr k ↦ (max x.start lo, x.state, ground arith, ground arith, k)
    ]

or_else-none : (o : Option RegionState) → or_else o none ≡ o
or_else-none none = refl
or_else-none (some s) = refl

-- In the range only the entries that overlap it count.
pub state_at-inside :
    (lo hi : ℕ) (xs : List Interval) (a : ℕ)
    → IsSorted 0 xs
    → within lo hi a ≡ true
    → state_at xs a ≡ state_at (keep (overlaps lo hi) xs) a
state_at-inside lo hi xs a v h =
    (state_at-keep (overlaps lo hi) 0 xs a v).0
    ∙ ap (or_else (state_at (keep (overlaps lo hi) xs) a)) (state_at-skip lo hi xs a h)
    ∙ or_else-none _

module _ (t : IntervalTree) where
  pub overlapping-keep :
      (m : MemoryMap t) (r : Range)
      → IsValid t m
      → Fits r
      → overlapping t m r ≡ keep (overlaps (page_start r) (page_end r)) (t.iter m.regions)
  unfolding overlapping range_end
  overlapping-keep m r v f =
      let e : (r.start + r.len) % 18446744073709551616 ≡ r.start + r.len = omega arith in
      ap (t.range m.regions r.start) e
      ∙ t.range-overlaps m.regions r.start (r.start + r.len) (omega arith)
      ∙ keep_pages r 0 (t.iter m.regions) f v

  -- For a valid map and a range that is not empty and does not wrap, a test of all overlapping
  -- regions passes exactly if the state of every mapped address in the range's pages passes it.
  pub all_overlapping_regions_iff :
      (m : MemoryMap t) (r : Range) (q : RegionState → Bool)
      → IsValid t m
      → Fits r
      → (all_overlapping_regions t m r (λ x. q x.state) ≡ true)
        ↔ ((a : ℕ) (s : RegionState) → in_pages r a ≡ true → lookup t m a ≡ some s → q s ≡ true)
  unfolding all_overlapping_regions
  all_overlapping_regions_iff m r q v f =
      let xs = t.iter m.regions in
      let lo = page_start r in
      let hi = page_end r in
      let over = keep (overlaps lo hi) xs in
      let e = overlapping-keep m r v f in
      let n : lo < hi = omega arith in
      let at : (a : ℕ) → within lo hi a ≡ true → state_at xs a ≡ state_at over a =
        λ a h. state_at-inside lo hi xs a v h in
      (
        λ h a s i k.
            all_regions-true q over a s (sym (ap (all_regions (λ x. q x.state)) e) ∙ h)
              (sym (at a i) ∙ k),
        λ h. elim (Bool-cases (all_regions (λ x. q x.state) over)) [
          | inl k ↦ ap (all_regions (λ x. q x.state)) e ∙ k
          | inr k ↦
              let (a, s, i, e', f') =
                all_regions-false q lo hi 0 over n (keep-IsSorted _ 0 xs v) (keep-All _ xs) k in
              absurd (ground (arith, h a s i (at a i ∙ e')))
        ],
      )

  -- For a valid map and a range that is not empty and does not wrap, unmapping does not panic,
  -- takes the state from every address in the range's pages, and keeps the others' states, the
  -- well-formedness and the mark of initialization.
  pub unmap_region-Unmapped :
      (m : MemoryMap t) (r : Range)
      → IsValid t m
      → Fits r
      → Returns (unmap_region t r m) (λ u.
        IsValid t u
        × (u.init_finished ≡ m.init_finished)
        × ((a : ℕ) → lookup t u a ≡ (if in_pages r a then none else lookup t m a)))
  unfolding unmap_region
  unmap_region-Unmapped m r v f =
      Returns->>= _ (split_out_region t r m) _ (split_out_region-Split t m r v f)
        (λ s k. (k.valid, k.same_init, k.left))
