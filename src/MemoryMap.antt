-- ===== src/MemoryMap.antt =====
-- runtime/tracer/memory-map/src/lib.rs: the ranges and the states of regions. The interval tree
-- that holds the regions is the crate nonoverlapping_interval_tree, a parameter of the model.
pub mod Operations
pub mod Views
pub mod Inserts
pub mod Splits
pub mod Adds
pub mod Protects
pub mod Checks
use ia2_phase.Base.{
  ℕ, Bool, List, Option, u64, ◌+◌, ◌-◌, ◌*◌, ◌/◌, if◌then◌else◌, ltb, leb, ◌==◌, some, none, max,
  [], ◌∷◌, ◌&&◌, ◌<◌, ◌≡◌,
}
use Prim.Native.Nat.{min}
use mathlib.Core.Option

pub record Range : Type 0 where
  pub start : ℕ
  pub len : ℕ

unfoldable pub from_bounds : ℕ → ℕ → Option Range
from_bounds start stop =
    if ltb start stop then some (record { start = start; len = stop - start }) else none

-- `Range::end`.
unfoldable pub range_end : Range → ℕ
range_end r = u64 (r.start + r.len)

-- Subtraction wraps as well.
unfoldable pub round_to_4k : Range → Range
unfolding range_end
round_to_4k r =
    let end_round_up = u64 (range_end r + 4095) / 4096 * 4096 in
    let start = r.start / 4096 * 4096 in
    record { start = start; len = u64 (end_round_up + 18446744073709551616 - start) }

unfoldable pub overlap : Range → Range → Option Range
unfolding from_bounds range_end
overlap r other = from_bounds (max r.start other.start) (min (range_end r) (range_end other))

-- What remains in front of the other range and behind it.
unfoldable pub subtract : Range → Range → Option (Option Range × Option Range)
unfolding overlap from_bounds range_end
subtract r other = elim (overlap r other) [
  | none ↦ none
  | some o ↦ some (from_bounds r.start o.start, from_bounds (range_end o) (range_end r))
]

-- The state of a contiguous region of memory.
pub record RegionState : Type 0 where
  pub owner_pkey : ℕ
  pub pkey_mprotected : Bool
  pub mprotected : Bool
  pub prot : ℕ

-- An entry of the tree: `start..stop` and its value.
pub record Interval : Type 0 where
  pub start : ℕ
  pub stop : ℕ
  pub state : RegionState

abbrev pub overlaps : ℕ → ℕ → Interval → Bool
overlaps start stop x = ltb x.start stop && ltb start x.stop

unfoldable pub keep : (Interval → Bool) → List Interval → List Interval
keep p [] = []
keep p (x ∷ xs) = if p x then x ∷ keep p xs else keep p xs

-- Ascending by start.
unfoldable pub put : Interval → List Interval → List Interval
put y [] = y ∷ []
put y (x ∷ xs) = if ltb y.start x.start then y ∷ x ∷ xs else x ∷ put y xs

unfoldable pub delete : ℕ → List Interval → Option (List Interval)
delete key [] = none
delete key (x ∷ xs) = if x.start == key then some xs else Option.map (λ ys. x ∷ ys) (delete key xs)

-- What the code relies on: a map ordered by start, whose `range` yields the entries that overlap a
-- range that is not empty. `remove` is `none` where the key is absent.
pub record IntervalTree : Type 1 where
  pub Tree : Type 0
  pub empty : Tree
  pub iter : Tree → List Interval
  pub range : Tree → ℕ → ℕ → List Interval
  pub insert : ℕ → ℕ → RegionState → Tree → Tree
  pub remove : ℕ → Tree → Option Tree
  pub iter-empty : iter empty ≡ []
  pub range-overlaps :
      (t : Tree) (start stop : ℕ)
      → start < stop
      → range t start stop ≡ keep (overlaps start stop) (iter t)
  pub iter-insert :
      (t : Tree) (start stop : ℕ) (state : RegionState)
      → start < stop
      → range t start stop ≡ []
      → iter (insert start stop state t)
        ≡ put (record { start = start; stop = stop; state = state }) (iter t)
  pub iter-remove :
      (t : Tree) (key : ℕ) (rest : List Interval)
      → delete key (iter t) ≡ some rest
      → (u : Tree) × (remove key t ≡ some u) × (iter u ≡ rest)
