-- ===== src/Tracer/Processes.antt =====
-- runtime/tracer/track_memory_map.c: the memory maps of the traced processes, with the threads of
-- each, and the processes that wait to be recognized.
pub mod Removal
pub mod Threads
pub mod Arrivals
pub mod Maps
use ia2_phase.Base.{
  ℕ, Bool, List, Option, none, some, [], ◌∷◌, ◌++◌, ◌==◌, if◌then◌else◌, true, false, suc, zero,
}
use mathlib.Core.Option

-- `struct memory_map_for_process`, for a memory map of type `A`.
pub record MapForProcess {ℓ} (A : Type ℓ) : Type ℓ where
  pub map : A
  pub pids : List ℕ

pub data ControlFlow : Type 0 where
  return_true return_false continue_loop : ControlFlow

unfoldable pub has_pid : ℕ → List ℕ → Bool
has_pid pid [] = false
has_pid pid (p ∷ ps) = if p == pid then true else has_pid pid ps

-- The last element, and all but the last.
unfoldable pub last {ℓ} : {A : Type ℓ} → A → List A → A
last x [] = x
last x (y ∷ ys) = last y ys

unfoldable pub but_last {ℓ} : {A : Type ℓ} → A → List A → List A
but_last x [] = []
but_last x (y ∷ ys) = x ∷ but_last y ys

-- What follows a removed element: swap the last into its place and decrement the count.
unfoldable pub swap_last {ℓ} : {A : Type ℓ} → List A → List A
unfolding last but_last
swap_last [] = []
swap_last (y ∷ ys) = last y ys ∷ but_last y ys

-- `none` is `false`: the process was not there.
unfoldable pub remove_pid : ℕ → List ℕ → Option (List ℕ)
unfolding swap_last
remove_pid pid [] = none
remove_pid pid (p ∷ ps) =
    if p == pid then some (swap_last ps) else Option.map (λ qs. p ∷ qs) (remove_pid pid ps)

abbrev pub add_pending_pid : ℕ → List ℕ → List ℕ
add_pending_pid pid pids = pids ++ pid ∷ []

module _ {ℓ} {A : Type ℓ} where
  -- The index stands for the pointer that the code returns.
  unfoldable pub find_memory_map : ℕ → List (MapForProcess A) → Option ℕ
  unfolding has_pid
  find_memory_map pid [] = none
  find_memory_map pid (m ∷ ms) =
      if has_pid pid m.pids then some 0 else Option.map suc (find_memory_map pid ms)

  unfoldable pub update_at : (A → A) → ℕ → List (MapForProcess A) → List (MapForProcess A)
  update_at f i [] = []
  update_at f zero (m ∷ ms) = record m { map = f m.map } ∷ ms
  update_at f (suc i) (m ∷ ms) = m ∷ update_at f i ms

  unfoldable pub set_pids : List ℕ → ℕ → List (MapForProcess A) → List (MapForProcess A)
  set_pids pids i [] = []
  set_pids pids zero (m ∷ ms) = record m { pids = pids } ∷ ms
  set_pids pids (suc i) (m ∷ ms) = m ∷ set_pids pids i ms

  unfoldable pub add_pid : ℕ → ℕ → List (MapForProcess A) → List (MapForProcess A)
  add_pid pid i [] = []
  add_pid pid zero (m ∷ ms) = record m { pids = m.pids ++ pid ∷ [] } ∷ ms
  add_pid pid (suc i) (m ∷ ms) = m ∷ add_pid pid i ms

  unfoldable pub for_process_new : A → ℕ → MapForProcess A
  for_process_new map pid = record { map = map; pids = pid ∷ [] }

  abbrev pub add_map : MapForProcess A → List (MapForProcess A) → List (MapForProcess A)
  add_map map maps = maps ++ map ∷ []

  unfoldable pub remove_map : ℕ → List (MapForProcess A) → List (MapForProcess A)
  unfolding swap_last
  remove_map i [] = []
  remove_map zero (m ∷ ms) = swap_last ms
  remove_map (suc i) (m ∷ ms) = m ∷ remove_map i ms

  abbrev pub pids_at : ℕ → List (MapForProcess A) → List ℕ
  pids_at i [] = []
  pids_at zero (m ∷ ms) = m.pids
  pids_at (suc i) (m ∷ ms) = pids_at i ms

  -- The exit of the last thread removes the map of the process.
  abbrev pub drop_if_empty : List ℕ → ℕ → List (MapForProcess A) → List (MapForProcess A)
  drop_if_empty [] i maps = remove_map i maps
  drop_if_empty (p ∷ ps) i maps = maps

  abbrev pub flow_of : List (MapForProcess A) → ControlFlow
  flow_of [] = return_true
  flow_of (m ∷ ms) = continue_loop

  abbrev pub exit_at :
      ℕ → List (MapForProcess A) → Option (List ℕ) → ControlFlow × List (MapForProcess A)
  exit_at i maps none = (return_false, maps)
  exit_at i maps (some pids) =
      let left = drop_if_empty pids i (set_pids pids i maps) in (flow_of left, left)

  abbrev pub exit_found :
      ℕ → List (MapForProcess A) → Option ℕ → ControlFlow × List (MapForProcess A)
  exit_found waited_pid maps none = (return_false, maps)
  exit_found waited_pid maps (some i) = exit_at i maps (remove_pid waited_pid (pids_at i maps))

  unfoldable pub handle_thread_exit :
      ℕ → List (MapForProcess A) → ControlFlow × List (MapForProcess A)
  unfolding find_memory_map remove_pid remove_map set_pids
  handle_thread_exit waited_pid maps = exit_found waited_pid maps (find_memory_map waited_pid maps)
