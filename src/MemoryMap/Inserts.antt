-- ===== src/MemoryMap/Inserts.antt =====
-- What an insertion into the interval tree does to the states of the addresses.
use ia2_phase.MemoryMap.{IntervalTree, Interval, RegionState, from_bounds, range_end, Range}
use ia2_phase.MemoryMap.Operations.{insert_piece}
use ia2_phase.MemoryMap.Views.{IsSorted, state_at, within, keep-free, put-IsSorted, state_at-put}
use ia2_phase.Base.{
  ℕ, List, none, some, if◌then◌else◌, ◌<◌, ◌%◌, ◌≡◌, arith, true, Bool-cases, inl, inr, ltb, ◌∙◌,
  ◌+◌, ◌-◌, ◌≤◌,
}

-- The states after an insertion between two addresses.
pub record Inserted (before after : List Interval) (lo hi : ℕ) (state : RegionState) : Type 0 where
  pub sorted : IsSorted 0 after
  pub states :
      (a : ℕ) → state_at after a ≡ (if within lo hi a then some state else state_at before a)

abbrev pub interval : ℕ → ℕ → RegionState → Interval
interval lo hi state = record { start = lo; stop = hi; state = state }

abbrev pub IsPage : ℕ → Type 0
IsPage n = (n % 4096 ≡ 0) × (n < 18446744073709551616)

abbrev pub between : ℕ → ℕ → Range
between lo hi = record { start = lo; len = hi - lo }

pub from_bounds-lt : (lo hi : ℕ) → lo < hi → from_bounds lo hi ≡ some (between lo hi)
unfolding from_bounds
from_bounds-lt lo hi h = ground arith

pub range_end-between :
    (lo hi : ℕ) → lo ≤ hi → hi < 18446744073709551616 → range_end (between lo hi) ≡ hi
unfolding range_end
range_end-between lo hi h k = omega arith

module _ (t : IntervalTree) where
  pub insert-Inserted :
      (tree : t.Tree) (lo hi : ℕ) (state : RegionState)
      → IsSorted 0 (t.iter tree)
      → lo < hi
      → IsPage lo
      → IsPage hi
      → ((a : ℕ) → within lo hi a ≡ true → state_at (t.iter tree) a ≡ none)
      → Inserted (t.iter tree) (t.iter (t.insert lo hi state tree)) lo hi state
  insert-Inserted tree lo hi state s nonempty p q free =
      let e = keep-free lo hi 0 (t.iter tree) nonempty s free in
      let i = t.iter-insert tree lo hi state nonempty (t.range-overlaps tree lo hi nonempty ∙ e) in
      record {
        sorted = rw i (
            put-IsSorted (interval lo hi state) 0 (t.iter tree) s
              (omega arith, nonempty, p.0, q.0, q.1, tt) e);
        states = λ a. rw i (state_at-put (interval lo hi state) 0 (t.iter tree) a s e);
      }

  -- A piece that may be empty.
  pub insert_piece-Inserted :
      (tree : t.Tree) (lo hi : ℕ) (state : RegionState)
      → IsSorted 0 (t.iter tree)
      → IsPage lo
      → IsPage hi
      → ((a : ℕ) → within lo hi a ≡ true → state_at (t.iter tree) a ≡ none)
      → Inserted (t.iter tree) (t.iter (insert_piece t (from_bounds lo hi) state tree)) lo hi state
  unfolding from_bounds range_end
  insert_piece-Inserted tree lo hi state s p q free = elim (Bool-cases (ltb lo hi)) [
    | inl h ↦
        let e : (lo + (hi - lo)) % 18446744073709551616 ≡ hi = ground arith in
        rw (h, e) (insert-Inserted tree lo hi state s (ground arith) p q free)
    | inr h ↦ rw h (record { sorted = s; states = λ a. ground arith })
  ]
