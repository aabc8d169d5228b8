-- ===== src/MemoryMap/Splits/Clips.antt =====
-- The parts of the removed regions inside the range.
use ia2_phase.MemoryMap.{Interval, overlaps}
use ia2_phase.MemoryMap.Operations.{clip}
use ia2_phase.MemoryMap.Views.{
  IsSorted, state_at, within, state_at-below, max_cases, min_cases, IsSorted-weaken,
}
use ia2_phase.MemoryMap.Inserts.{IsPage, interval}
use Prim.Native.Nat.{min}
use ia2_phase.Base.{
  ℕ, List, none, some, [], ◌∷◌, ◌<◌, ◌≡◌, ◌==◌, ltb, arith, All, refl, max, if◌then◌else◌, true,
  false,
}

pub clip_states :
    (lo hi base : ℕ) (xs : List Interval)
    → lo < hi
    → IsPage lo
    → IsPage hi
    → IsSorted base xs
    → All (λ x. overlaps lo hi x ≡ true) xs
    → (ys : List Interval) × (clip lo hi xs ≡ some ys)
      × IsSorted base ys
      × ((a : ℕ) → state_at ys a ≡ (if within lo hi a then state_at xs a else none))
unfolding clip state_at
clip_states lo hi base [] n p q s o = ([], refl, tt, λ a. ground arith)
clip_states lo hi base (x ∷ xs) n p q s o =
    let from = max x.start lo in
    let to = min x.stop hi in
    let mx = max_cases x.start lo in
    let mn = min_cases x.stop hi in
    let (ys, e, sy, st) = clip_states lo hi x.stop xs n p q s.5 o.1 in
    let h : from < to = ground arith in
    let e1 : (from == to) ≡ false = ground arith in
    let e2 : ltb from to ≡ true = ground arith in
    (
      interval from to x.state ∷ ys,
      rw (e1, clip) (rw e2 (rw e refl)),
      (
        ground arith,
        h,
        ground arith,
        ground arith,
        omega arith,
        IsSorted-weaken to x.stop ys (omega arith) sy,
      ),
      λ a. ground (arith, st a, state_at-below x.stop xs a s.5),
    )
