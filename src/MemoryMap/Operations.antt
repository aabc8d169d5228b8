-- ===== src/MemoryMap/Operations.antt =====
-- runtime/tracer/memory-map/src/lib.rs: the memory map and its operations. `none` is a panic.
use ia2_phase.MemoryMap.{
  Range, from_bounds, range_end, round_to_4k, subtract, RegionState, Interval, IntervalTree,
}
use ia2_phase.Base.{
  ℕ, Bool, List, Option, if◌then◌else◌, ◌==◌, ltb, some, none, true, false, [], ◌∷◌, max, ◌&&◌,
  ◌||◌, not, same, assert, ◌>>◌, ◌>>=◌,
}
use Prim.Native.Nat.{min}

pub record MemoryMap (t : IntervalTree) : Type 0 where
  pub regions : t.Tree
  pub init_finished : Bool

-- The range of a region, and a region at a range.
abbrev pub region_range : Interval → Option Range
region_range x = from_bounds x.start x.stop

-- `Iterator::next`.
abbrev pub next : List Interval → Option Interval
next [] = none
next (x ∷ xs) = some x

unfoldable pub all_regions : (Interval → Bool) → List Interval → Bool
all_regions p [] = true
all_regions p (x ∷ xs) = p x && all_regions p xs

abbrev pub breaks : Option ℕ → Interval → Bool
breaks none x = false
breaks (some stop) x = not (x.start == stop)

-- The test of every region in turn, and where the last region ended.
unfoldable pub contiguous : Option ℕ → List Interval → Bool × Option ℕ
contiguous last_end [] = (true, last_end)
contiguous last_end (x ∷ xs) =
    let rest = contiguous (some x.stop) xs in if breaks last_end x then (false, last_end) else rest

-- No region at the start, a gap between two regions, or one behind the last.
unfoldable pub hole_verdict : ℕ → Option Interval → Bool × Option ℕ → Bool
hole_verdict stop none scan = true
hole_verdict stop (some x) (false, last_end) = true
hole_verdict stop (some x) (true, none) = true
hole_verdict stop (some x) (true, some last_end) = ltb last_end stop

-- One value for all regions, if there is one: the value so far and whether all agree.
unfoldable pub same_value : (RegionState → ℕ) → Option ℕ → List Interval → Bool × Option ℕ
same_value f value [] = (true, value)
same_value f none (x ∷ xs) = same_value f (some (f x.state)) xs
same_value f (some v) (x ∷ xs) =
    let rest = same_value f (some v) xs in if v == f x.state then rest else (false, some v)

unfoldable pub clip : ℕ → ℕ → List Interval → Option (List Interval)
clip start stop [] = some []
clip start stop (x ∷ xs) =
    let from = max x.start start in
    let to = min x.stop stop in
    let rest = clip start stop xs in
    if from == to then rest else (do
      assert (ltb from to)
      ys ← rest
      some (record { start = from; stop = to; state = x.state } ∷ ys))

unfoldable pub may_pkey_mprotect : Bool → ℕ → Interval → Bool
may_pkey_mprotect init_finished pkey region =
    if not (region.state.owner_pkey == pkey) && not (region.state.owner_pkey == 0)
    then not init_finished
    else if region.state.pkey_mprotected
    then not init_finished
    else true

abbrev pub pkey_mprotected_state : Bool → ℕ → RegionState → RegionState
pkey_mprotected_state init_finished pkey s = record s {
  pkey_mprotected = true;
  owner_pkey = if s.owner_pkey == 0 || not init_finished then pkey else s.owner_pkey;
}

abbrev pub mprotected_state : ℕ → RegionState → RegionState
mprotected_state prot s = record s { mprotected = true; prot = prot }

module _ (t : IntervalTree) where
  unfoldable pub new_map : MemoryMap t
  new_map = record { regions = t.empty; init_finished = false }

  unfoldable pub mark_init_finished : MemoryMap t → Bool × MemoryMap t
  mark_init_finished m =
      if m.init_finished then (false, m) else (true, record m { init_finished = true })

  -- `self.regions.range(needle.as_std())`.
  unfoldable pub overlapping : MemoryMap t → Range → List Interval
  unfolding range_end
  overlapping m needle = t.range m.regions needle.start (range_end needle)

  -- `if let Some(...) = self.regions.range(range.as_std()).next() { return false }`, else insert.
  unfoldable pub add_at : ℕ → ℕ → RegionState → MemoryMap t → List Interval → Bool × MemoryMap t
  add_at start stop state m [] = (true, record m { regions = t.insert start stop state m.regions })
  add_at start stop state m (x ∷ xs) = (false, m)

  unfoldable pub add_region : Range → RegionState → MemoryMap t → Bool × MemoryMap t
  unfolding overlapping round_to_4k range_end add_at
  add_region range state m =
      let r = round_to_4k range in
      if range.len == 0 then (false, m) else add_at r.start (range_end r) state m (overlapping m r)

  unfoldable pub all_overlapping_regions : MemoryMap t → Range → (Interval → Bool) → Bool
  unfolding all_regions overlapping
  all_overlapping_regions m needle predicate = all_regions predicate (overlapping m needle)

  unfoldable pub find_overlapping_region : MemoryMap t → Range → Option Interval
  unfolding overlapping
  find_overlapping_region m needle = next (overlapping m needle)

  unfoldable pub find_region_containing_addr : MemoryMap t → ℕ → Option Interval
  unfolding find_overlapping_region
  find_region_containing_addr m needle =
      find_overlapping_region m (record { start = needle; len = 1 })

  unfoldable pub contains_holes : MemoryMap t → Range → Bool
  unfolding find_region_containing_addr contiguous overlapping range_end hole_verdict
  contains_holes m needle =
      hole_verdict (range_end needle) (find_region_containing_addr m needle.start)
        (contiguous none (overlapping m needle))

  unfoldable pub remove_all : List Interval → t.Tree → Option t.Tree
  remove_all [] tree = some tree
  remove_all (x ∷ xs) tree = t.remove x.start tree >>= remove_all xs

  abbrev pub insert_piece : Option Range → RegionState → t.Tree → t.Tree
  insert_piece none state tree = tree
  insert_piece (some r) state tree = t.insert r.start (range_end r) state tree

  unfoldable pub insert_rests : Range → List Interval → t.Tree → Option t.Tree
  unfolding subtract from_bounds range_end
  insert_rests subrange [] tree = some tree
  insert_rests subrange (x ∷ xs) tree = do
    r ← region_range x
    pieces ← subtract r subrange
    insert_rests subrange xs (insert_piece pieces.1 x.state (insert_piece pieces.0 x.state tree))

  -- Removes exactly the range; the parts of regions inside it are returned.
  unfoldable pub split_out_pages : Range → MemoryMap t → Option (MemoryMap t × List Interval)
  unfolding overlapping remove_all insert_rests clip range_end
  split_out_pages subrange m = do
    let overlapped = overlapping m subrange
    removed ← remove_all overlapped m.regions
    regions ← insert_rests subrange overlapped removed
    parts ← clip subrange.start (range_end subrange) overlapped
    some (record m { regions = regions }, parts)

  unfoldable pub split_out_region : Range → MemoryMap t → Option (MemoryMap t × List Interval)
  unfolding round_to_4k split_out_pages
  split_out_region subrange m = split_out_pages (round_to_4k subrange) m

  unfoldable pub all_overlapping_regions_have_pkey : MemoryMap t → Range → ℕ → Bool
  unfolding all_overlapping_regions
  all_overlapping_regions_have_pkey m needle pkey =
      all_overlapping_regions m needle (λ region. pkey == region.state.owner_pkey)

  unfoldable pub all_overlapping_regions_pkey_mprotected : MemoryMap t → Range → Bool → Bool
  unfolding all_overlapping_regions
  all_overlapping_regions_pkey_mprotected m needle pkey_mprotected =
      all_overlapping_regions m needle (λ region. same pkey_mprotected region.state.pkey_mprotected)

  unfoldable pub all_overlapping_regions_mprotected : MemoryMap t → Range → Bool → Bool
  unfolding all_overlapping_regions
  all_overlapping_regions_mprotected m needle mprotected =
      all_overlapping_regions m needle (λ region. same mprotected region.state.mprotected)

  -- 0xFFFFFFFF is PROT_INDETERMINATE.
  unfoldable pub region_get_prot : MemoryMap t → Range → Option ℕ
  unfolding overlapping same_value
  region_get_prot m needle =
      let (agree, prot) = same_value (λ s. s.prot) none (overlapping m needle) in
      if agree then prot else some 4294967295

  unfoldable pub unmap_region : Range → MemoryMap t → Option (MemoryMap t)
  unfolding split_out_region
  unmap_region needle m = do split ← split_out_region needle m; some split.0

  unfoldable pub map_add_region : Range → ℕ → ℕ → MemoryMap t → Bool × MemoryMap t
  unfolding add_region
  map_add_region range owner_pkey prot m =
      add_region range
        (record {
          owner_pkey = owner_pkey;
          pkey_mprotected = false;
          mprotected = false;
          prot = prot;
        })
        m

  -- `for mut region in map.split_out_region(range) { ... assert!(map.add_region(...)) }`.
  unfoldable pub add_back :
      (RegionState → RegionState) → List Interval → MemoryMap t → Option (MemoryMap t)
  unfolding add_region
  add_back change [] m = some m
  add_back change (x ∷ xs) m = do
    r ← region_range x
    let added = add_region r (change x.state) m
    assert added.0
    add_back change xs added.1

  -- Takes the range out and adds its parts again with their new states.
  unfoldable pub reprotect :
      (RegionState → RegionState) → Range → MemoryMap t → Option (MemoryMap t)
  unfolding split_out_region add_back
  reprotect change range m = split_out_region range m >>= λ split. add_back change split.1 split.0

  unfoldable pub pkey_mprotect_region : Range → ℕ → MemoryMap t → Option (Bool × MemoryMap t)
  unfolding contains_holes all_overlapping_regions may_pkey_mprotect reprotect
  pkey_mprotect_region range pkey m =
      let change =
        reprotect (pkey_mprotected_state m.init_finished pkey) range m
        >>= (λ after. some (true, after)) in
      if contains_holes m range
      then some (false, m)
      else if all_overlapping_regions m range (may_pkey_mprotect m.init_finished pkey)
      then change
      else some (false, m)

  unfoldable pub mprotect_region : Range → ℕ → MemoryMap t → Option (Bool × MemoryMap t)
  unfolding contains_holes reprotect
  mprotect_region range prot m =
      let change = reprotect (mprotected_state prot) range m >>= (λ after. some (true, after)) in
      if contains_holes m range then some (false, m) else change

  unfoldable pub clear : MemoryMap t → MemoryMap t
  clear m = record { regions = t.empty; init_finished = false }
