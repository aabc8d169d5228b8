-- ===== src/MemoryMap/Checks/Holes.antt =====
-- `contains_holes` against the states of the addresses.
use ia2_phase.MemoryMap.Checks.{state_at-inside}
use ia2_phase.MemoryMap.Adds.{keep-none, keep-some}
use ia2_phase.MemoryMap.{IntervalTree, Interval, Range, keep, overlaps, range_end}
use ia2_phase.MemoryMap.Operations.{
  MemoryMap, contiguous, contains_holes, overlapping, find_region_containing_addr,
  find_overlapping_region, hole_verdict, next,
}
use ia2_phase.MemoryMap.Views.{IsSorted, state_at, within, state_at-below, keep-IsSorted, keep-All}
use ia2_phase.MemoryMap.Splits.Whole.{Fits, lookup, IsValid}
use ia2_phase.Base.{
  ℕ, List, Option, none, some, [], ◌∷◌, ◌<◌, ◌≤◌, ◌+◌, ◌≡◌, ◌≢◌, arith, refl, Bool, true, false,
  sym, ◌∙◌, Bool-cases, inl, inr, All, ◌⊎◌, ◌==◌, ltb, ◌↔◌, u64, leb, leb→le, subst, ap,
}

-- An address of the range with no state.
abbrev Hole : ℕ → ℕ → List Interval → Type 0
Hole lo hi xs = (a : ℕ) × (lo ≤ a) × (a < hi) × (state_at xs a ≡ none)

-- From the end of the last region on: all contiguous, up to where the last one ends.
covered :
    (last : ℕ) (xs : List Interval) (stop : ℕ)
    → IsSorted last xs
    → contiguous (some last) xs ≡ (true, some stop)
    → (a : ℕ) → last ≤ a
    → a < stop
    → state_at xs a ≢ none
unfolding contiguous state_at
covered last [] stop s e a h k = λ _. absurd (ground arith)
covered last (x ∷ xs) stop s e a h k = elim (Bool-cases (x.start == last)) [
  | inl j ↦
      let rest : contiguous (some x.stop) xs ≡ (true, some stop) = ground arith in
      let later : x.stop ≤ a → state_at xs a ≢ none = λ b. covered x.stop xs stop s.5 rest a b k in
      elim (Bool-cases (within x.start x.stop a)) [
        | inl i ↦ rw i (λ z. cc)
        | inr o ↦ rw o (later (ground arith))
      ]
  | inr j ↦ λ _. absurd (ground arith)
]

-- No state from where the last region ends.
ended :
    (last : ℕ) (xs : List Interval) (stop : ℕ)
    → IsSorted last xs
    → contiguous (some last) xs ≡ (true, some stop)
    → (last ≤ stop) × (state_at xs stop ≡ none)
unfolding contiguous state_at
ended last [] stop s e = (ground arith, refl)
ended last (x ∷ xs) stop s e = elim (Bool-cases (x.start == last)) [
  | inl j ↦
      let rest : contiguous (some x.stop) xs ≡ (true, some stop) = ground arith in
      let (p, q) = ended x.stop xs stop s.5 rest in (omega arith, ground arith)
  | inr j ↦ absurd (ground arith)
]

gap :
    (last hi : ℕ) (xs : List Interval) (stop : Option ℕ)
    → IsSorted last xs
    → All (λ x. x.start < hi) xs
    → contiguous (some last) xs ≡ (false, stop)
    → Hole last hi xs
unfolding contiguous state_at
gap last hi [] stop s o e = cc
gap last hi (x ∷ xs) stop s o e = elim (Bool-cases (x.start == last)) [
  | inl j ↦
      let rest : contiguous (some x.stop) xs ≡ (false, stop) = ground arith in
      let (a, p, q, h) = gap x.stop hi xs stop s.5 o.1 rest in (a, omega arith, q, ground arith)
  | inr j ↦ (last, omega arith, ground arith, ground (arith, state_at-below x.stop xs last s.5))
]

last_known : (last : ℕ) (xs : List Interval) → contiguous (some last) xs ≢ (true, none)
unfolding contiguous
last_known last [] e = cc
last_known last (x ∷ xs) e = elim (Bool-cases (x.start == last)) [
  | inl j ↦ last_known x.stop xs (ground arith)
  | inr j ↦ ground arith
]

-- All addresses are mapped, or there is a hole.
abbrev Verdict : Bool → ℕ → ℕ → List Interval → Type 0
Verdict b lo hi xs =
    ((b ≡ false) × ((a : ℕ) → lo ≤ a → a < hi → state_at xs a ≢ none))
    ⊎ ((b ≡ true) × Hole lo hi xs)

scan_lem :
    (lo hi : ℕ) (f x : Interval) (ys : List Interval) (scan : Bool × Option ℕ)
    → IsSorted 0 (x ∷ ys)
    → All (λ z. overlaps lo hi z ≡ true) (x ∷ ys)
    → All (λ z. z.start < hi) ys
    → x.start ≤ lo
    → contiguous (some x.stop) ys ≡ scan
    → Verdict (hole_verdict hi (some f) scan) lo hi (x ∷ ys)
unfolding hole_verdict state_at
scan_lem lo hi f x ys (false, last) s o b first e =
    let (a, p, q, h) = gap x.stop hi ys last s.5 b e in
    inr (refl, (a, ground arith, q, ground arith))
scan_lem lo hi f x ys (true, none) s o b first e = absurd (last_known x.stop ys e)
scan_lem lo hi f x ys (true, some last) s o b first e =
    let (p, q) = ended x.stop ys last s.5 e in
    elim (Bool-cases (ltb last hi)) [
      | inl k ↦ inr (k, (last, ground arith, ground arith, ground arith))
      | inr k ↦ inl (
        k,
        λ a h j. elim (Bool-cases (within x.start x.stop a)) [
          | inl i ↦ rw i (λ z. cc)
          | inr i ↦ rw i (covered x.stop ys last s.5 e a (ground arith) (ground arith))
        ],
      )
    ]

starts_below :
    (lo hi : ℕ) (xs : List Interval)
    → All (λ z. overlaps lo hi z ≡ true) xs
    → All (λ z. z.start < hi) xs
starts_below lo hi [] o = tt
starts_below lo hi (x ∷ xs) o = (ground arith, starts_below lo hi xs o.1)

scanned :
    (lo hi : ℕ) (f : Interval) (over : List Interval)
    → state_at over lo ≢ none
    → IsSorted 0 over
    → All (λ z. overlaps lo hi z ≡ true) over
    → Verdict (hole_verdict hi (some f) (contiguous none over)) lo hi over
unfolding contiguous state_at
scanned lo hi f [] there s o = absurd (there refl)
scanned lo hi f (x ∷ ys) there s o =
    let first : x.start ≤ lo = elim (Bool-cases (leb x.start lo)) [
      | inl k ↦ leb→le _ _ k
      | inr k ↦ absurd (there (ground (arith, state_at-below x.stop ys lo s.5)))
    ] in
    scan_lem lo hi f x ys _ s o (starts_below lo hi ys o.1) first refl

-- A verdict on one list holds for another with the same states in the range.
move :
    (lo hi : ℕ) (xs ys : List Interval) (b : Bool)
    → ((a : ℕ) → lo ≤ a → a < hi → state_at xs a ≡ state_at ys a)
    → Verdict b lo hi ys
    → Verdict b lo hi xs
move lo hi xs ys b at (inl (e, all)) = inl (e, λ a h k z. all a h k (sym (at a h k) ∙ z))
move lo hi xs ys b at (inr (e, (a, h, k, z))) = inr (e, (a, h, k, at a h k ∙ z))

-- The verdict on the regions of a list that overlap the range.
verdict_lem :
    (lo hi : ℕ) (xs firsts over : List Interval)
    → IsSorted 0 xs
    → lo < hi
    → keep (overlaps lo (lo + 1)) xs ≡ firsts
    → keep (overlaps lo hi) xs ≡ over
    → Verdict (hole_verdict hi (next firsts) (contiguous none over)) lo hi xs
unfolding hole_verdict contiguous
verdict_lem lo hi xs [] over v n e1 e2 =
    inr (refl, (lo, omega arith, n, keep-none lo (lo + 1) xs lo e1 (ground arith)))
verdict_lem lo hi xs (f ∷ fs) over v n e1 e2 =
    let (a, i, mapped) = keep-some lo (lo + 1) 0 xs f fs (omega arith) v e1 in
    let at : (b : ℕ) → lo ≤ b → b < hi → state_at xs b ≡ state_at over b =
      λ b h k. state_at-inside lo hi xs b v (ground arith) ∙ ap (λ l. state_at l b) e2 in
    let here : a ≡ lo = ground arith in
    let there : state_at over lo ≢ none =
      λ z. mapped (ap (state_at xs) here ∙ at lo (omega arith) n ∙ z) in
    let so : IsSorted 0 over = subst (IsSorted 0) e2 (keep-IsSorted (overlaps lo hi) 0 xs v) in
    let oo : All (λ z. overlaps lo hi z ≡ true) over =
      subst (All (λ z. overlaps lo hi z ≡ true)) e2 (keep-All (overlaps lo hi) xs) in
    move lo hi xs over _ at (scanned lo hi f over there so oo)

module _ (t : IntervalTree) where
  verdict :
      (m : MemoryMap t) (r : Range)
      → IsValid t m
      → Fits r
      → Verdict (contains_holes t m r) r.start (r.start + r.len) (t.iter m.regions)
  unfolding contains_holes find_region_containing_addr find_overlapping_region overlapping range_end
  verdict m r v f =
      let lo = r.start in
      let hi = r.start + r.len in
      let xs = t.iter m.regions in
      let e : u64 hi ≡ hi = omega arith in
      let e1 : u64 (lo + 1) ≡ lo + 1 = omega arith in
      let v' =
        verdict_lem lo hi xs _ _ v (omega arith)
          (sym (t.range-overlaps m.regions lo (lo + 1) (omega arith)))
          (sym (t.range-overlaps m.regions lo hi (omega arith))) in
      subst
        (λ stop.
          Verdict
            (hole_verdict stop (next (t.range m.regions lo (u64 (lo + 1))))
              (contiguous none (t.range m.regions lo stop)))
            lo hi xs)
        (sym e)
        (subst
          (λ one.
            Verdict
              (hole_verdict hi (next (t.range m.regions lo one))
                (contiguous none (t.range m.regions lo hi)))
              lo hi xs)
          (sym e1) v')

  -- For a valid map and a range that is not empty and does not wrap, the search finds no hole
  -- exactly if every address of the range is mapped.
  pub contains_holes_iff :
      (m : MemoryMap t) (r : Range)
      → IsValid t m
      → Fits r
      → (contains_holes t m r ≡ false)
        ↔ ((a : ℕ) → r.start ≤ a → a < r.start + r.len → lookup t m a ≢ none)
  contains_holes_iff m r v f = elim (verdict m r v f) [
    | inl (e, all) ↦ (λ _. all, λ _. e)
    | inr (e, (a, h, k, z)) ↦ (λ e'. cc, λ all. absurd (all a h k z))
  ]
