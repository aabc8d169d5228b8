-- ===== src/Tracer/Processes/Threads.antt =====
-- The invariant of the maps of processes, and the operations that keep it.
use ia2_phase.Tracer.Processes.{
  MapForProcess, ControlFlow, return_false, remove_pid, remove_map, pids_at, set_pids,
  find_memory_map, handle_thread_exit, exit_at, flow_of,
}
use ia2_phase.Tracer.Processes.Removal.{
  occurrences, thread_count, total-swap_last, All-swap_last, remove_pid-occurrences,
  remove_pid-found, has_pid-occurrences,
}
use ia2_phase.Base.{
  ℕ, List, none, some, [], ◌∷◌, ◌==◌, ◌+◌, ◌<◌, ◌≤◌, ◌≡◌, ◌≢◌, if◌then◌else◌, arith, refl, All, suc,
  zero, inl, inr, ◌⊎◌, length,
}

module _ {ℓ} {A : Type ℓ} where
  -- Every map has a thread, and no thread is in two places.
  pub record IsTracked (maps : List (MapForProcess A)) : Type ℓ where
    pub used : All (λ m. m.pids ≢ []) maps
    pub once : (a : ℕ) → thread_count a maps ≤ 1

  -- The index that is found is that of a map with the thread.
  pub find_memory_map-cases :
      (pid : ℕ) (maps : List (MapForProcess A))
      → ((find_memory_map pid maps ≡ none) × (thread_count pid maps ≡ 0))
        ⊎ ((i : ℕ) × (find_memory_map pid maps ≡ some i)
            × (i < length maps)
            × (0 < occurrences pid (pids_at i maps)))
  unfolding find_memory_map
  find_memory_map-cases pid [] = inl (refl, refl)
  find_memory_map-cases pid (m ∷ ms) = elim (has_pid-occurrences pid m.pids) [
    | inl (e, h) ↦ rw e (inr (0, refl, omega arith, h))
    | inr (e, h) ↦ rw e (elim (find_memory_map-cases pid ms) [
      | inl (f, n) ↦ rw f (inl (refl, omega arith))
      | inr (i, f, l, n) ↦ rw f (inr (suc i, refl, omega arith, n))
    ])
  ]

  pids_at-count :
      (a i : ℕ) (maps : List (MapForProcess A))
      → occurrences a (pids_at i maps) ≤ thread_count a maps
  pids_at-count a i [] = omega arith
  pids_at-count a zero (m ∷ ms) = omega arith
  pids_at-count a (suc i) (m ∷ ms) = omega (arith, pids_at-count a i ms)

  set_pids-count :
      (a : ℕ) (pids : List ℕ) (i : ℕ) (maps : List (MapForProcess A))
      → i < length maps
      → thread_count a (set_pids pids i maps) + occurrences a (pids_at i maps)
        ≡ thread_count a maps + occurrences a pids
  unfolding set_pids
  set_pids-count a pids i [] h = absurd (omega arith)
  set_pids-count a pids zero (m ∷ ms) h = omega arith
  set_pids-count a pids (suc i) (m ∷ ms) h = omega (arith, set_pids-count a pids i ms (omega arith))

  set_pids-used :
      (p : ℕ) (pids : List ℕ) (i : ℕ) (maps : List (MapForProcess A))
      → All (λ m. m.pids ≢ []) maps
      → All (λ m. m.pids ≢ []) (set_pids (p ∷ pids) i maps)
  unfolding set_pids
  set_pids-used p pids i [] h = tt
  set_pids-used p pids zero (m ∷ ms) h = (λ e. cc, h.1)
  set_pids-used p pids (suc i) (m ∷ ms) h = (h.0, set_pids-used p pids i ms h.1)

  -- A map that lost its last thread goes, and the others stay.
  remove_emptied :
      (a i : ℕ) (maps : List (MapForProcess A))
      → thread_count a (remove_map i (set_pids [] i maps)) ≡ thread_count a (set_pids [] i maps)
  unfolding remove_map set_pids
  remove_emptied a i [] = refl
  remove_emptied a zero (m ∷ ms) = omega (arith, total-swap_last (λ m. occurrences a m.pids) ms)
  remove_emptied a (suc i) (m ∷ ms) = omega (arith, remove_emptied a i ms)

  removed_used :
      (i : ℕ) (maps : List (MapForProcess A))
      → All (λ m. m.pids ≢ []) maps
      → All (λ m. m.pids ≢ []) (remove_map i (set_pids [] i maps))
  unfolding remove_map set_pids
  removed_used i [] h = tt
  removed_used zero (m ∷ ms) h = All-swap_last (λ m. m.pids ≢ []) ms h.1
  removed_used (suc i) (m ∷ ms) h = (h.0, removed_used i ms h.1)

  -- The thread is gone, everything else is as it was, and the flow says whether a map is left.
  pub record Exited (pid : ℕ) (maps : List (MapForProcess A))
      (result : ControlFlow × List (MapForProcess A)) : Type ℓ where
    pub tracked : IsTracked result.1
    pub counts :
        (a : ℕ) → thread_count a result.1 + (if pid == a then 1 else 0) ≡ thread_count a maps
    pub flow : result.0 ≡ flow_of result.1

  exit_at-Exited :
      (pid i : ℕ) (maps : List (MapForProcess A)) (qs : List ℕ)
      → IsTracked maps
      → i < length maps
      → remove_pid pid (pids_at i maps) ≡ some qs
      → Exited pid maps (exit_at i maps (some qs))
  exit_at-Exited pid i maps [] k h e =
      let n : (a : ℕ)
          → thread_count a (remove_map i (set_pids [] i maps)) + (if pid == a then 1 else 0)
            ≡ thread_count a maps =
        λ a. omega (
          arith,
          remove_emptied a i maps,
          set_pids-count a [] i maps h,
          remove_pid-occurrences pid a (pids_at i maps) [] e,
        ) in
      record {
        tracked = record {
          used = removed_used i maps k.used;
          once = λ a. omega (arith, n a, k.once a);
        };
        counts = n;
        flow = refl;
      }
  exit_at-Exited pid i maps (q ∷ qs) k h e =
      let n : (a : ℕ)
          → thread_count a (set_pids (q ∷ qs) i maps) + (if pid == a then 1 else 0)
            ≡ thread_count a maps =
        λ a. omega (
          arith,
          set_pids-count a (q ∷ qs) i maps h,
          remove_pid-occurrences pid a (pids_at i maps) (q ∷ qs) e,
        ) in
      record {
        tracked = record {
          used = set_pids-used q qs i maps k.used;
          once = λ a. omega (arith, n a, k.once a);
        };
        counts = n;
        flow = refl;
      }

  -- If the maps are tracked and hold the thread, its exit takes it out of them and nothing else,
  -- keeps them tracked (a map without threads is removed), and ends the loop exactly if no map is
  -- left.
  pub handle_thread_exit-Exited :
      (pid : ℕ) (maps : List (MapForProcess A))
      → IsTracked maps
      → 0 < thread_count pid maps
      → Exited pid maps (handle_thread_exit pid maps)
  unfolding handle_thread_exit
  handle_thread_exit-Exited pid maps k h = elim (find_memory_map-cases pid maps) [
    | inl (e, n) ↦ absurd (omega arith)
    | inr (i, e, l, n) ↦
        let (qs, r) = remove_pid-found pid (pids_at i maps) n in
        rw (e, handle_thread_exit) (rw r (exit_at-Exited pid i maps qs k l r))
  ]

  -- A thread that no map holds is an error, and changes nothing.
  pub handle_thread_exit-unknown :
      (pid : ℕ) (maps : List (MapForProcess A))
      → thread_count pid maps ≡ 0
      → handle_thread_exit pid maps ≡ (return_false, maps)
  unfolding handle_thread_exit
  handle_thread_exit-unknown pid maps h = elim (find_memory_map-cases pid maps) [
    | inl (e, n) ↦ rw (e, handle_thread_exit) refl
    | inr (i, e, l, n) ↦ absurd (omega (arith, pids_at-count pid i maps))
  ]
