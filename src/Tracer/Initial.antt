-- ===== src/Tracer/Initial.antt =====
-- runtime/tracer/track_memory_map.c: the memory map that the tracer starts with, from the lines of
-- /proc/<pid>/maps. What sscanf reads from each line is an argument, `none` where it fails.
pub mod Loaded
use ia2_phase.MemoryMap.{IntervalTree, Range}
use ia2_phase.MemoryMap.Operations.{MemoryMap, new_map, map_add_region}
use ia2_phase.Base.{ℕ, List, Option, some, none, [], ◌∷◌, ◌==◌, ◌+◌, ◌-◌, if◌then◌else◌, u64, u32}
use Prim.Native.Nat.{bit_or}

-- The addresses and the first three characters of the permissions.
pub record MapsEntry : Type 0 where
  pub start_addr : ℕ
  pub end_addr : ℕ
  pub read_char : ℕ
  pub write_char : ℕ
  pub exec_char : ℕ

-- PROT_READ for `r`, PROT_WRITE for `w`, PROT_EXEC for `x`.
abbrev pub entry_prot : MapsEntry → ℕ
entry_prot e =
    bit_or (bit_or (if e.read_char == 114 then 1 else 0) (if e.write_char == 119 then 2 else 0))
      (if e.exec_char == 120 then 4 else 0)

abbrev pub entry_range : MapsEntry → Range
entry_range e = record {
  start = e.start_addr;
  len = u64 (e.end_addr + 18446744073709551616 - e.start_addr);
}

module _ (t : IntervalTree) where
  -- `none` is the null pointer that a failure leaves.
  unfoldable pub add_memory_map_entry : MapsEntry → Option (MemoryMap t) → Option (MemoryMap t)
  unfolding map_add_region
  add_memory_map_entry e none = none
  add_memory_map_entry e (some m) = some (map_add_region t (entry_range e) 0 (entry_prot e) m).1

  abbrev pub fail_loading_memory_map : Option (MemoryMap t) → Option (MemoryMap t)
  fail_loading_memory_map m = none

  unfoldable pub memory_map_foreach :
      List (Option MapsEntry) → Option (MemoryMap t) → Option (MemoryMap t)
  unfolding add_memory_map_entry
  memory_map_foreach [] m = m
  memory_map_foreach (some e ∷ lines) m = memory_map_foreach lines (add_memory_map_entry e m)
  memory_map_foreach (none ∷ lines) m = memory_map_foreach lines (fail_loading_memory_map m)

  unfoldable pub load_initial_memory_map : List (Option MapsEntry) → Option (MemoryMap t)
  unfolding memory_map_foreach new_map
  load_initial_memory_map lines = memory_map_foreach lines (some (new_map t))
