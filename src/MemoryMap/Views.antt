-- ===== src/MemoryMap/Views.antt =====
-- The entries of an interval tree as a function of the address, and their well-formedness.
use ia2_phase.MemoryMap.{Interval, RegionState, overlaps, keep, put}
use Prim.Native.Nat.{min}
use native.Mathlib.Nat.{max-eq_left, max-eq_right, min-eq_left, min-eq_right}
use ia2_phase.Base.{
  ℕ, Bool, List, Option, leb, ltb, ◌&&◌, none, some, [], ◌∷◌, if◌then◌else◌, ◌≤◌, ◌<◌, ◌%◌, ◌≡◌,
  arith, All, true, not, ◌⊎◌, inl, inr, Bool-cases, refl, max, leb→le, leb→lt,
}

abbrev pub within : ℕ → ℕ → ℕ → Bool
within lo hi a = leb lo a && ltb a hi

unfoldable pub state_at : List Interval → ℕ → Option RegionState
state_at [] a = none
state_at (x ∷ xs) a = if within x.start x.stop a then some x.state else state_at xs a

-- Whole pages below 2 ^ 64 that are not empty, ascending and apart.
abbrev pub IsSorted : ℕ → List Interval → Type 0
IsSorted lo [] = Unit
IsSorted lo (x ∷ xs) =
    (lo ≤ x.start)
    × (x.start < x.stop)
    × (x.start % 4096 ≡ 0)
    × (x.stop % 4096 ≡ 0)
    × (x.stop < 18446744073709551616)
    × IsSorted x.stop xs

abbrev pub or_else : Option RegionState → Option RegionState → Option RegionState
or_else none b = b
or_else (some a) b = some a

pub IsSorted-weaken : (lo hi : ℕ) (xs : List Interval) → lo ≤ hi → IsSorted hi xs → IsSorted lo xs
IsSorted-weaken lo hi [] h s = tt
IsSorted-weaken lo hi (x ∷ xs) h s = (omega arith, s.1, s.2, s.3, s.4, s.5)

pub state_at-below :
    (lo : ℕ) (xs : List Interval) (a : ℕ) → IsSorted lo xs → a < lo → state_at xs a ≡ none
unfolding state_at
state_at-below lo [] a s h = refl
state_at-below lo (x ∷ xs) a s h = ground (arith, state_at-below x.stop xs a s.5)

pub keep-IsSorted :
    (p : Interval → Bool) (lo : ℕ) (xs : List Interval) → IsSorted lo xs → IsSorted lo (keep p xs)
unfolding keep
keep-IsSorted p lo [] s = tt
keep-IsSorted p lo (x ∷ xs) s = elim (Bool-cases (p x)) [
  | inl e ↦ rw e (s.0, s.1, s.2, s.3, s.4, keep-IsSorted p x.stop xs s.5)
  | inr e ↦ rw e (IsSorted-weaken lo x.stop _ (omega arith) (keep-IsSorted p x.stop xs s.5))
]

-- The entries that pass a test and the others hold the states together, and never both.
pub state_at-keep :
    (p : Interval → Bool) (lo : ℕ) (xs : List Interval) (a : ℕ)
    → IsSorted lo xs
    → (state_at xs a ≡ or_else (state_at (keep p xs) a) (state_at (keep (λ x. not (p x)) xs) a))
      × ((state_at (keep p xs) a ≡ none) ⊎ (state_at (keep (λ x. not (p x)) xs) a ≡ none))
unfolding state_at keep
state_at-keep p lo [] a s = (refl, inl refl)
state_at-keep p lo (x ∷ xs) a s =
    let (both, apart) = state_at-keep p x.stop xs a s.5 in
    let below1 : a < x.stop → state_at (keep p xs) a ≡ none =
      λ h. state_at-below x.stop (keep p xs) a (keep-IsSorted p x.stop xs s.5) h in
    let below2 : a < x.stop → state_at (keep (λ y. not (p y)) xs) a ≡ none =
      λ h. state_at-below x.stop _ a (keep-IsSorted (λ y. not (p y)) x.stop xs s.5) h in
    elim (Bool-cases (p x)) [
      | inl e ↦ rw e (elim (Bool-cases (within x.start x.stop a)) [
        | inl i ↦ rw i (refl, inr (below2 (ground arith)))
        | inr o ↦ rw o (both, apart)
      ])
      | inr e ↦ rw e (elim (Bool-cases (within x.start x.stop a)) [
        | inl i ↦ rw i (rw (below1 (ground arith)) (refl, inl refl))
        | inr o ↦ rw o (both, apart)
      ])
    ]

-- Nothing is left at an address of the range once the entries that overlap it are gone.
pub state_at-skip :
    (lo hi : ℕ) (xs : List Interval) (a : ℕ)
    → within lo hi a ≡ true
    → state_at (keep (λ x. not (overlaps lo hi x)) xs) a ≡ none
unfolding state_at keep
state_at-skip lo hi [] a h = refl
state_at-skip lo hi (x ∷ xs) a h = ground (arith, state_at-skip lo hi xs a h)

pub keep-All : (p : Interval → Bool) (xs : List Interval) → All (λ x. p x ≡ true) (keep p xs)
unfolding keep
keep-All p [] = tt
keep-All p (x ∷ xs) = elim (Bool-cases (p x)) [
  | inl e ↦ rw e (e, keep-All p xs)
  | inr e ↦ rw e (keep-All p xs)
]

-- No entry overlaps a range whose addresses have no state.
pub keep-free :
    (lo hi min : ℕ) (xs : List Interval)
    → lo < hi
    → IsSorted min xs
    → ((a : ℕ) → within lo hi a ≡ true → state_at xs a ≡ none)
    → keep (overlaps lo hi) xs ≡ []
unfolding state_at keep
keep-free lo hi min [] nonempty s free = refl
keep-free lo hi min (x ∷ xs) nonempty s free =
    let rest : (a : ℕ) → within lo hi a ≡ true → state_at xs a ≡ none =
      λ a h. ground (arith, free a) in
    elim (Bool-cases (overlaps lo hi x)) [
      | inl e ↦ absurd (ground (arith, free lo, free x.start))
      | inr e ↦ rw e (keep-free lo hi x.stop xs nonempty s.5 rest)
    ]

pub put-IsSorted :
    (y : Interval) (lo : ℕ) (xs : List Interval)
    → IsSorted lo xs
    → IsSorted lo (y ∷ [])
    → keep (overlaps y.start y.stop) xs ≡ []
    → IsSorted lo (put y xs)
unfolding put keep
put-IsSorted y lo [] s p e = p
put-IsSorted y lo (x ∷ xs) s p e = elim (Bool-cases (ltb y.start x.start)) [
  | inl b ↦ rw b (p.0, p.1, p.2, p.3, p.4, (ground arith, s.1, s.2, s.3, s.4, s.5))
  | inr b ↦ rw b (
    s.0,
    s.1,
    s.2,
    s.3,
    s.4,
    put-IsSorted y x.stop xs s.5 (ground arith, p.1, p.2, p.3, p.4, tt) (ground arith),
  )
]

pub state_at-put :
    (y : Interval) (lo : ℕ) (xs : List Interval) (a : ℕ)
    → IsSorted lo xs
    → keep (overlaps y.start y.stop) xs ≡ []
    → state_at (put y xs) a ≡ (if within y.start y.stop a then some y.state else state_at xs a)
unfolding put keep state_at
state_at-put y lo [] a s e = refl
state_at-put y lo (x ∷ xs) a s e = ground (arith, state_at-put y x.stop xs a s.5)

-- The two bounds of an intersection, for the arithmetic.
pub max_cases : (a b : ℕ) → (a ≤ max a b) × (b ≤ max a b) × ((max a b ≡ a) ⊎ (max a b ≡ b))
max_cases a b = elim (Bool-cases (leb a b)) [
  | inl h ↦ rw (max-eq_right (leb→le a b h)) (leb→le a b h, omega arith, inr refl)
  | inr h ↦
      let k : b ≤ a = omega (arith, leb→lt a b h) in rw (max-eq_left k) (omega arith, k, inl refl)
]

pub min_cases : (a b : ℕ) → (min a b ≤ a) × (min a b ≤ b) × ((min a b ≡ a) ⊎ (min a b ≡ b))
min_cases a b = elim (Bool-cases (leb a b)) [
  | inl h ↦ rw (min-eq_left (leb→le a b h)) (omega arith, leb→le a b h, inl refl)
  | inr h ↦
      let k : b ≤ a = omega (arith, leb→lt a b h) in rw (min-eq_right k) (k, omega arith, inr refl)
]
