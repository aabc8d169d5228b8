-- ===== src/Tracer/Initial/Loaded.antt =====
-- The initial memory map has exactly the listed pages, all of compartment 0.
use ia2_phase.MemoryMap.{IntervalTree, RegionState}
use ia2_phase.MemoryMap.Operations.{MemoryMap, new_map, map_add_region, add_region}
use ia2_phase.MemoryMap.Views.{within, state_at}
use ia2_phase.MemoryMap.Splits.Whole.{page_start, page_end, lookup, IsValid}
use ia2_phase.MemoryMap.Adds.{Added, add_region-Added}
use ia2_phase.Tracer.Initial.{
  MapsEntry, entry_prot, entry_range, add_memory_map_entry, memory_map_foreach,
  load_initial_memory_map,
}
use ia2_phase.Base.{
  ℕ, Bool, List, Option, some, none, [], ◌∷◌, ◌+◌, ◌%◌, ◌<◌, ◌≤◌, ◌≡◌, if◌then◌else◌, true, false,
  arith, refl, subst, Returns, Returns-map, ltb, ◌∙◌, ◌++◌, ap, ◌&&◌,
}

abbrev pub initial_state : MapsEntry → RegionState
initial_state e = record {
  owner_pkey = 0;
  pkey_mprotected = false;
  mprotected = false;
  prot = entry_prot e;
}

-- The entry that an address is in.
abbrev pub entry_at : List MapsEntry → ℕ → Option RegionState
entry_at [] a = none
entry_at (e ∷ es) a =
    if within e.start_addr e.end_addr a then some (initial_state e) else entry_at es a

-- Whole pages, in ascending order from an address on, below the last page.
abbrev pub IsAscending : ℕ → List MapsEntry → Type 0
IsAscending lo [] = Unit
IsAscending lo (e ∷ es) =
    (lo ≤ e.start_addr)
    × (e.start_addr < e.end_addr)
    × (e.end_addr + 4095 < 18446744073709551616)
    × (e.start_addr % 4096 ≡ 0)
    × (e.end_addr % 4096 ≡ 0)
    × IsAscending e.end_addr es

abbrev pub all_parsed : List MapsEntry → List (Option MapsEntry)
all_parsed [] = []
all_parsed (e ∷ es) = some e ∷ all_parsed es

entry_at-below :
    (lo : ℕ) (es : List MapsEntry) (a : ℕ) → IsAscending lo es → a < lo → entry_at es a ≡ none
entry_at-below lo [] a h l = refl
entry_at-below lo (e ∷ es) a (b, n, f, p, q, h) l = ground (arith, entry_at-below e.end_addr es a h)

module _ (t : IntervalTree) where
  -- Every address has the state of its entry, and the program has not ended its initialization.
  pub record Loaded (es : List MapsEntry) (m : MemoryMap t) : Type 0 where
    pub valid : IsValid t m
    pub unfinished : m.init_finished ≡ false
    pub states : (a : ℕ) → lookup t m a ≡ entry_at es a

  record LoadedFrom (lo : ℕ) (es : List MapsEntry) (before m : MemoryMap t) : Type 0 where
    valid : IsValid t m
    same_init : m.init_finished ≡ before.init_finished
    states : (a : ℕ) → lookup t m a ≡ (if ltb a lo then lookup t before a else entry_at es a)

  entry-Added :
      (lo : ℕ) (e : MapsEntry) (es : List MapsEntry) (m : MemoryMap t)
      → IsValid t m
      → IsAscending lo (e ∷ es)
      → Added t m e.start_addr e.end_addr
          (initial_state e)
          (map_add_region t (entry_range e) 0 (entry_prot e) m)
  unfolding map_add_region
  entry-Added lo e es m v (b, n, f, p, q, h) =
      let r = entry_range e in
      let s : page_start r ≡ e.start_addr = omega arith in
      let z : page_end r ≡ e.end_addr = omega arith in
      subst (λ hi. Added t m e.start_addr hi (initial_state e) (add_region t r (initial_state e) m))
        z
        (subst
          (λ from.
            Added t m from (page_end r) (initial_state e) (add_region t r (initial_state e) m))
          s (add_region-Added t r (initial_state e) m v (omega arith)))

  accepted :
      (lo hi : ℕ) (s : RegionState) (m : MemoryMap t) (result : Bool × MemoryMap t)
      → ((a : ℕ) → lo ≤ a → lookup t m a ≡ none)
      → Added t m lo hi s result
      → result.0 ≡ true
  accepted lo hi s m (true, u) free h = refl
  accepted lo hi s m (false, u) free h =
      let (a, w, taken) = Added.taken h refl in absurd (taken (free a (ground arith)))

  memory_map_foreach-LoadedFrom :
      (lo : ℕ) (es : List MapsEntry) (m : MemoryMap t)
      → IsValid t m
      → IsAscending lo es
      → ((a : ℕ) → lo ≤ a → lookup t m a ≡ none)
      → Returns (memory_map_foreach t (all_parsed es) (some m)) (LoadedFrom lo es m)
  unfolding memory_map_foreach add_memory_map_entry
  memory_map_foreach-LoadedFrom lo [] m v h free = record {
    valid = v;
    same_init = refl;
    states = λ a. ground (arith, free a);
  }
  memory_map_foreach-LoadedFrom lo (e ∷ es) m v (b, n, f, p, q, h) free =
      let result = map_add_region t (entry_range e) 0 (entry_prot e) m in
      let k = entry-Added lo e es m v (b, n, f, p, q, h) in
      let ok =
        accepted e.start_addr e.end_addr (initial_state e) m result (λ a l. free a (omega arith))
          k in
      let after : (a : ℕ)
          → lookup t result.1 a
            ≡ (if within e.start_addr e.end_addr a then some (initial_state e) else lookup t m a) =
        λ a.
          k.states a
          ∙ ap
              (λ c.
                if c && within e.start_addr e.end_addr a
                then some (initial_state e)
                else lookup t m a)
              ok in
      Returns-map (memory_map_foreach t (all_parsed es) (some result.1))
        (memory_map_foreach-LoadedFrom e.end_addr es result.1 k.valid h
          (λ a l. ground (arith, after a, free a)))
        (λ u w. record {
          valid = w.valid;
          same_init = w.same_init ∙ k.same_init;
          states =
              λ a. ground (arith, w.states a, after a, free a, entry_at-below e.end_addr es a h);
        })

  -- If every line of the file is read and the entries are whole pages in ascending order below the
  -- last page, the initial memory map is loaded: it is valid, the initialization is not over, every
  -- address of an entry belongs to compartment 0, is not sealed and has the entry's protection, and
  -- no other address is mapped.
  pub load_initial_memory_map-Loaded :
      (es : List MapsEntry)
      → IsAscending 0 es
      → Returns (load_initial_memory_map t (all_parsed es)) (Loaded es)
  unfolding load_initial_memory_map new_map state_at
  load_initial_memory_map-Loaded es h =
      let empty_map : MemoryMap t = record { regions = t.empty; init_finished = false } in
      Returns-map (memory_map_foreach t (all_parsed es) (some empty_map))
        (memory_map_foreach-LoadedFrom 0 es empty_map (rw t.iter-empty tt) h
          (λ a l. rw t.iter-empty refl))
        (λ u w. record {
          valid = w.valid;
          unfinished = w.same_init;
          states = λ a. ground (arith, w.states a);
        })

  memory_map_foreach-none :
      (lines : List (Option MapsEntry)) → memory_map_foreach t lines none ≡ none
  unfolding memory_map_foreach add_memory_map_entry
  memory_map_foreach-none [] = refl
  memory_map_foreach-none (some e ∷ lines) = memory_map_foreach-none lines
  memory_map_foreach-none (none ∷ lines) = memory_map_foreach-none lines

  -- A line that cannot be read is the end of it, whatever follows.
  pub memory_map_foreach-unread :
      (before after : List (Option MapsEntry)) (m : Option (MemoryMap t))
      → memory_map_foreach t (before ++ none ∷ after) m ≡ none
  unfolding memory_map_foreach
  memory_map_foreach-unread [] after m = memory_map_foreach-none after
  memory_map_foreach-unread (some e ∷ before) after m =
      memory_map_foreach-unread before after (add_memory_map_entry t e m)
  memory_map_foreach-unread (none ∷ before) after m = memory_map_foreach-unread before after none
