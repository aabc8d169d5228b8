-- ===== src/Tests/Maps/Regions.antt =====
-- The operations of a memory map at concrete regions.
use ia2_phase.MemoryMap.{IntervalTree, Interval, RegionState, Range, keep, overlaps, put, delete}
use ia2_phase.MemoryMap.Operations.{
  MemoryMap, contains_holes, unmap_region, mprotect_region, mprotected_state, pkey_mprotect_region,
  pkey_mprotected_state, add_region,
}
use ia2_phase.MemoryMap.Splits.Whole.{in_pages, lookup, IsValid}
use ia2_phase.MemoryMap.Adds.{Added, add_region-Added}
use ia2_phase.MemoryMap.Checks.{unmap_region-Unmapped}
use ia2_phase.MemoryMap.Checks.Holes.{contains_holes_iff}
use ia2_phase.MemoryMap.Protects.{
  Protected, mprotect_region-Protected, pkey_mprotect_region-Protected, pkey_mprotect_allowed,
}
use ia2_phase.Base.{
  ℕ, List, some, none, [], ◌∷◌, ◌≡◌, ◌≢◌, ◌↔◌, ◌<◌, ◌≤◌, true, false, not, arith, refl, Returns,
  if◌then◌else◌,
}

abbrev pub list_tree : IntervalTree
list_tree = record {
  Tree = List Interval;
  empty = [];
  iter = λ t. t;
  range = λ t start stop. keep (overlaps start stop) t;
  insert = λ start stop state t. put (record { start = start; stop = stop; state = state }) t;
  remove = delete;
  iter-empty = refl;
  range-overlaps = λ t start stop h. refl;
  iter-insert = λ t start stop state h e. refl;
  iter-remove = λ t key rest e. (rest, e, refl);
}

abbrev pub state_of : ℕ → RegionState
state_of pkey = record { owner_pkey = pkey; pkey_mprotected = true; mprotected = true; prot = 1 }

abbrev pub cell : ℕ → ℕ → ℕ → Interval
cell start stop pkey = record { start = start; stop = stop; state = state_of pkey }

-- Two pages of compartment 1, and two of compartment 2 behind them.
abbrev pub two_owners : MemoryMap list_tree
two_owners = record {
  regions = cell 0x1000 0x3000 1 ∷ cell 0x3000 0x5000 2 ∷ [];
  init_finished = true;
}

abbrev pub span : ℕ → ℕ → Range
span start len = record { start = start; len = len }

add_region-Added_example :
    Added list_tree two_owners 0x8000 0x9000
      (state_of 3)
      (add_region list_tree (span 0x8010 16) (state_of 3) two_owners)
add_region-Added_example =
    add_region-Added list_tree (span 0x8010 16) (state_of 3) two_owners (omega arith) (omega arith)

contains_holes_iff_example :
    (contains_holes list_tree two_owners (span 0x2000 0x2000) ≡ false)
    ↔ ((a : ℕ) → 0x2000 ≤ a → a < 0x4000 → lookup list_tree two_owners a ≢ none)
contains_holes_iff_example =
    contains_holes_iff list_tree two_owners (span 0x2000 0x2000) (omega arith) (omega arith)

unmap_region-Unmapped_example :
    Returns (unmap_region list_tree (span 0x2000 0x2000) two_owners) (λ u.
      IsValid list_tree u
      × (u.init_finished ≡ true)
      × ((a : ℕ)
          → lookup list_tree u a
            ≡ (if in_pages (span 0x2000 0x2000) a then none else lookup list_tree two_owners a)))
unmap_region-Unmapped_example =
    unmap_region-Unmapped list_tree two_owners (span 0x2000 0x2000) (omega arith) (omega arith)

mprotect_region-Protected_example :
    Returns (mprotect_region list_tree (span 0x2000 0x2000) 3 two_owners) (
      Protected list_tree
        (mprotected_state 3)
        two_owners
        (span 0x2000 0x2000)
        (not (contains_holes list_tree two_owners (span 0x2000 0x2000))))
mprotect_region-Protected_example =
    mprotect_region-Protected list_tree two_owners (span 0x2000 0x2000) 3 (omega arith)
      (omega arith)

pkey_mprotect_region-Protected_example :
    Returns (pkey_mprotect_region list_tree (span 0x2000 0x2000) 1 two_owners) (
      Protected list_tree
        (pkey_mprotected_state true 1)
        two_owners
        (span 0x2000 0x2000)
        (pkey_mprotect_allowed list_tree two_owners (span 0x2000 0x2000) 1))
pkey_mprotect_region-Protected_example =
    pkey_mprotect_region-Protected list_tree two_owners (span 0x2000 0x2000) 1 (omega arith)
      (omega arith)

-- The middle of the two regions goes, and the rest of each stays.
unmap_middle :
    unmap_region list_tree (span 0x2000 0x2000) two_owners
    ≡ some (record two_owners { regions = cell 0x1000 0x2000 1 ∷ cell 0x4000 0x5000 2 ∷ [] })
unfolding unmap_region keep put delete
unmap_middle = refl
