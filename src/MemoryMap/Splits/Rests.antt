-- ===== src/MemoryMap/Splits/Rests.antt =====
-- The pieces of the removed regions outside the range are inserted again.
use ia2_phase.MemoryMap.{
  IntervalTree, Interval, RegionState, Range, from_bounds, range_end, subtract, overlap, overlaps,
}
use ia2_phase.MemoryMap.Operations.{insert_rests, insert_piece}
use ia2_phase.MemoryMap.Views.{
  IsSorted, state_at, within, or_else, state_at-below, max_cases, min_cases,
}
use ia2_phase.MemoryMap.Inserts.{
  insert_piece-Inserted, IsPage, between, range_end-between, from_bounds-lt,
}
use Prim.Native.Nat.{min}
use ia2_phase.Base.{
  ℕ, List, Option, none, some, [], ◌∷◌, ◌<◌, ◌≡◌, arith, All, refl, max, if◌then◌else◌, true, ◌⊎◌,
}

-- The state of an address outside the range.
abbrev pub outside : ℕ → ℕ → ℕ → Option RegionState → Option RegionState
outside lo hi a s = if within lo hi a then none else s

overlap_lem :
    (x : Interval) (sub : Range)
    → x.start < x.stop
    → x.stop < 18446744073709551616
    → overlaps sub.start (range_end sub) x ≡ true
    → sub.start < range_end sub
    → overlap (between x.start x.stop) sub
      ≡ some (between (max x.start sub.start) (min x.stop (range_end sub)))
unfolding overlap
overlap_lem x sub p q o n =
    let mx = max_cases x.start sub.start in
    let mn = min_cases x.stop (range_end sub) in
    rw (range_end-between x.start x.stop (omega arith) q) (from_bounds-lt _ _ (ground arith))

subtract_lem :
    (x : Interval) (sub : Range)
    → x.start < x.stop
    → x.stop < 18446744073709551616
    → overlaps sub.start (range_end sub) x ≡ true
    → sub.start < range_end sub
    → subtract (between x.start x.stop) sub
      ≡ some (
        from_bounds x.start (max x.start sub.start),
        from_bounds (min x.stop (range_end sub)) x.stop,
      )
unfolding subtract
subtract_lem x sub p q o n =
    let mx = max_cases x.start sub.start in
    let mn = min_cases x.stop (range_end sub) in
    let from = max x.start sub.start in
    let to = min x.stop (range_end sub) in
    rw (overlap_lem x sub p q o n, subtract)
      (rw (range_end-between from to (ground arith) (omega arith))
        (rw (range_end-between x.start x.stop (omega arith) q) refl))

-- The two pieces of a removed region.
record Pieces (before after : List Interval) (lo hi : ℕ) (x : Interval) : Type 0 where
  sorted : IsSorted 0 after
  states :
      (a : ℕ)
      → state_at after a ≡ or_else (outside lo hi a (state_at (x ∷ []) a)) (state_at before a)

module _ (t : IntervalTree) where
  pieces :
      (tree : t.Tree) (x : Interval) (lo hi : ℕ)
      → IsSorted 0 (t.iter tree)
      → IsSorted 0 (x ∷ [])
      → lo < hi
      → IsPage lo
      → IsPage hi
      → overlaps lo hi x ≡ true
      → ((a : ℕ) → within x.start x.stop a ≡ true → state_at (t.iter tree) a ≡ none)
      → Pieces
          (t.iter tree)
          (t.iter (
            insert_piece t
              (from_bounds (min x.stop hi) x.stop)
              x.state
              (insert_piece t (from_bounds x.start (max x.start lo)) x.state tree)))
          lo
          hi
          x
  unfolding state_at
  pieces tree x lo hi s px n plo phi o free =
      let from = max x.start lo in
      let to = min x.stop hi in
      let mx = max_cases x.start lo in
      let mn = min_cases x.stop hi in
      let pfrom : IsPage from = ground arith in
      let pto : IsPage to = ground arith in
      let i =
        insert_piece-Inserted t tree x.start from x.state s (px.2, omega arith) pfrom
          (λ a h. free a (ground arith)) in
      let tree1 = insert_piece t (from_bounds x.start from) x.state tree in
      let j =
        insert_piece-Inserted t tree1 to x.stop x.state i.sorted pto (px.3, px.4)
          (λ a h. ground (arith, i.states a, free a)) in
      record { sorted = j.sorted; states = λ a. ground (arith, i.states a, j.states a) }

  -- After the loop, an address outside the range has the state of a removed region that held it,
  -- or else what it had.
  pub insert_rests_states :
      (sub : Range) (xs : List Interval) (base : ℕ) (tree : t.Tree)
      → IsSorted 0 (t.iter tree)
      → IsSorted base xs
      → sub.start < range_end sub
      → IsPage sub.start
      → IsPage (range_end sub)
      → All (λ x. overlaps sub.start (range_end sub) x ≡ true) xs
      → ((a : ℕ) → (state_at xs a ≡ none) ⊎ (state_at (t.iter tree) a ≡ none))
      → (u : t.Tree) × (insert_rests t sub xs tree ≡ some u)
        × IsSorted 0 (t.iter u)
        × ((a : ℕ)
            → state_at (t.iter u) a
              ≡ or_else
                  (outside sub.start (range_end sub) a (state_at xs a))
                  (state_at (t.iter tree) a))
  unfolding insert_rests state_at
  insert_rests_states sub [] base tree s l n p q o apart = (tree, refl, s, λ a. ground arith)
  insert_rests_states sub (x ∷ xs) base tree s l n p q o apart =
      let lo = sub.start in
      let hi = range_end sub in
      let i =
        pieces tree x lo hi s (omega arith, l.1, l.2, l.3, l.4, tt) n p q o.0
          (λ a h. ground (arith, apart a)) in
      let tree1 =
        insert_piece t (from_bounds (min x.stop hi) x.stop) x.state
          (insert_piece t (from_bounds x.start (max x.start lo)) x.state tree) in
      let (u, e, su, st) =
        insert_rests_states sub xs x.stop tree1 i.sorted l.5 n p q o.1
          (λ a. ground (arith, i.states a, apart a, state_at-below x.stop xs a l.5)) in
      (
        u,
        rw (from_bounds-lt x.start x.stop l.1, subtract_lem x sub l.1 l.4 o.0 n, insert_rests) e,
        su,
        λ a. ground (arith, st a, i.states a, state_at-below x.stop xs a l.5),
      )
