-- ===== src/Tracer/Processes/Maps.antt =====
-- A property of every memory map, and the operations on the list of processes that keep it.
use ia2_phase.Tracer.Processes.{
  MapForProcess, remove_map, set_pids, add_pid, update_at, find_memory_map, handle_thread_exit,
  exit_at, exit_found,
}
use ia2_phase.Tracer.Processes.Removal.{thread_count, All-swap_last}
use ia2_phase.Tracer.Processes.Threads.{
  IsTracked, Exited, handle_thread_exit-Exited, handle_thread_exit-unknown,
}
use ia2_phase.Base.{
  ℕ, List, Option, none, some, [], ◌∷◌, ◌==◌, ◌≡◌, ◌≢◌, arith, refl, All, suc, zero, Bool-cases,
  inl, inr, length,
}

module _ {ℓ} {A : Type ℓ} where
  pub update_at-count :
      (f : A → A) (a i : ℕ) (maps : List (MapForProcess A))
      → thread_count a (update_at f i maps) ≡ thread_count a maps
  unfolding update_at
  update_at-count f a i [] = refl
  update_at-count f a zero (m ∷ ms) = refl
  update_at-count f a (suc i) (m ∷ ms) = omega (arith, update_at-count f a i ms)

  update_at-used :
      (f : A → A) (i : ℕ) (maps : List (MapForProcess A))
      → All (λ m. m.pids ≢ []) maps
      → All (λ m. m.pids ≢ []) (update_at f i maps)
  unfolding update_at
  update_at-used f i [] h = tt
  update_at-used f zero (m ∷ ms) h = h
  update_at-used f (suc i) (m ∷ ms) h = (h.0, update_at-used f i ms h.1)

  pub update_at-IsTracked :
      (f : A → A) (i : ℕ) (maps : List (MapForProcess A))
      → IsTracked maps
      → IsTracked (update_at f i maps)
  update_at-IsTracked f i maps h = record {
    used = update_at-used f i maps h.used;
    once = λ a. omega (arith, update_at-count f a i maps, h.once a);
  }

  pub length-update_at :
      (f : A → A) (i : ℕ) (maps : List (MapForProcess A))
      → length (update_at f i maps) ≡ length maps
  unfolding update_at
  length-update_at f i [] = refl
  length-update_at f zero (m ∷ ms) = refl
  length-update_at f (suc i) (m ∷ ms) = omega (arith, length-update_at f i ms)

  pub length-add_pid :
      (pid i : ℕ) (maps : List (MapForProcess A)) → length (add_pid pid i maps) ≡ length maps
  unfolding add_pid
  length-add_pid pid i [] = refl
  length-add_pid pid zero (m ∷ ms) = refl
  length-add_pid pid (suc i) (m ∷ ms) = omega (arith, length-add_pid pid i ms)

module _ {ℓ} {A : Type ℓ} (I : A → Type 0) where
  -- Every process has a map with the property.
  abbrev pub AllMaps : List (MapForProcess A) → Type 0
  AllMaps maps = All (λ m. I m.map) maps

  AllMaps-set_pids :
      (pids : List ℕ) (i : ℕ) (maps : List (MapForProcess A))
      → AllMaps maps
      → AllMaps (set_pids pids i maps)
  unfolding set_pids
  AllMaps-set_pids pids i [] h = tt
  AllMaps-set_pids pids zero (m ∷ ms) h = h
  AllMaps-set_pids pids (suc i) (m ∷ ms) h = (h.0, AllMaps-set_pids pids i ms h.1)

  pub AllMaps-add_pid :
      (pid i : ℕ) (maps : List (MapForProcess A)) → AllMaps maps → AllMaps (add_pid pid i maps)
  unfolding add_pid
  AllMaps-add_pid pid i [] h = tt
  AllMaps-add_pid pid zero (m ∷ ms) h = h
  AllMaps-add_pid pid (suc i) (m ∷ ms) h = (h.0, AllMaps-add_pid pid i ms h.1)

  AllMaps-remove_map :
      (i : ℕ) (maps : List (MapForProcess A)) → AllMaps maps → AllMaps (remove_map i maps)
  unfolding remove_map
  AllMaps-remove_map i [] h = tt
  AllMaps-remove_map zero (m ∷ ms) h = All-swap_last (λ m. I m.map) ms h.1
  AllMaps-remove_map (suc i) (m ∷ ms) h = (h.0, AllMaps-remove_map i ms h.1)

  AllMaps-exit_at :
      (i : ℕ) (maps : List (MapForProcess A)) (rest : Option (List ℕ))
      → AllMaps maps
      → AllMaps (exit_at i maps rest).1
  AllMaps-exit_at i maps none h = h
  AllMaps-exit_at i maps (some []) h =
      AllMaps-remove_map i (set_pids [] i maps) (AllMaps-set_pids [] i maps h)
  AllMaps-exit_at i maps (some (p ∷ ps)) h = AllMaps-set_pids (p ∷ ps) i maps h

  AllMaps-exit_found :
      (pid : ℕ) (maps : List (MapForProcess A)) (found : Option ℕ)
      → AllMaps maps
      → AllMaps (exit_found pid maps found).1
  AllMaps-exit_found pid maps none h = h
  AllMaps-exit_found pid maps (some i) h = AllMaps-exit_at i maps _ h

  pub AllMaps-handle_thread_exit :
      (pid : ℕ) (maps : List (MapForProcess A))
      → AllMaps maps
      → AllMaps (handle_thread_exit pid maps).1
  unfolding handle_thread_exit
  AllMaps-handle_thread_exit pid maps h = AllMaps-exit_found pid maps (find_memory_map pid maps) h

-- The exit of a thread that no map holds changes nothing.
pub handle_thread_exit-IsTracked {ℓ} :
    {A : Type ℓ} (pid : ℕ) (maps : List (MapForProcess A))
    → IsTracked maps
    → IsTracked (handle_thread_exit pid maps).1
handle_thread_exit-IsTracked pid maps h = elim (Bool-cases (thread_count pid maps == 0)) [
  | inl z ↦ rw (handle_thread_exit-unknown pid maps (ground arith)) h
  | inr p ↦ Exited.tracked (handle_thread_exit-Exited pid maps h (ground arith))
]
