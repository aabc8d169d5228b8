-- ===== src/Tracer/Processes/Arrivals.antt =====
-- Threads and processes that come: the invariant is kept where they are new.
use ia2_phase.Tracer.Processes.{MapForProcess, add_pid, for_process_new, add_map}
use ia2_phase.Tracer.Processes.Removal.{occurrences, thread_count, total-append}
use ia2_phase.Base.{
  ℕ, List, [], ◌∷◌, ◌++◌, ◌==◌, ◌+◌, ◌<◌, ◌≡◌, ◌≢◌, if◌then◌else◌, arith, All, suc, zero,
  Bool-cases, inl, inr, ◌∙◌, length, All-append, ap, sym,
}
use ia2_phase.Tracer.Processes.Threads.{IsTracked}

ends : (pid : ℕ) (ps : List ℕ) → ps ++ pid ∷ [] ≢ []
ends pid [] e = cc
ends pid (p ∷ ps) e = cc

module _ {ℓ} {A : Type ℓ} where
  pub add_pid-count :
      (a pid i : ℕ) (maps : List (MapForProcess A))
      → i < length maps
      → thread_count a (add_pid pid i maps) ≡ thread_count a maps + (if pid == a then 1 else 0)
  unfolding add_pid
  add_pid-count a pid i [] h = absurd (omega arith)
  add_pid-count a pid zero (m ∷ ms) h =
      omega (arith, total-append (λ p. if p == a then 1 else 0) m.pids (pid ∷ []))
  add_pid-count a pid (suc i) (m ∷ ms) h = omega (arith, add_pid-count a pid i ms (omega arith))

  add_pid-used :
      (pid i : ℕ) (maps : List (MapForProcess A))
      → All (λ m. m.pids ≢ []) maps
      → All (λ m. m.pids ≢ []) (add_pid pid i maps)
  unfolding add_pid
  add_pid-used pid i [] h = tt
  add_pid-used pid zero (m ∷ ms) h = (ends pid m.pids, h.1)
  add_pid-used pid (suc i) (m ∷ ms) h = (h.0, add_pid-used pid i ms h.1)

  -- A thread or a process that is not there yet may be added.
  pub add_pid-IsTracked :
      (pid i : ℕ) (maps : List (MapForProcess A))
      → IsTracked maps
      → i < length maps
      → thread_count pid maps ≡ 0
      → IsTracked (add_pid pid i maps)
  add_pid-IsTracked pid i maps k h fresh = record {
    used = add_pid-used pid i maps k.used;
    once = λ a. elim (Bool-cases (pid == a)) [
      | inl e ↦
          let same : pid ≡ a = ground arith in
          let none_yet : thread_count a maps ≡ 0 =
            ap (λ z. thread_count z maps) (sym same) ∙ fresh in
          ground (arith, add_pid-count a pid i maps h)
      | inr e ↦ ground (arith, add_pid-count a pid i maps h, k.once a)
    ];
  }

  pub add_map-IsTracked :
      (pid : ℕ) (map : A) (maps : List (MapForProcess A))
      → IsTracked maps
      → thread_count pid maps ≡ 0
      → IsTracked (add_map (for_process_new map pid) maps)
  unfolding for_process_new
  add_map-IsTracked pid map maps k fresh = record {
    used = All-append (λ m. m.pids ≢ []) maps _ k.used (λ e. cc, tt);
    once = λ a. elim (Bool-cases (pid == a)) [
      | inl e ↦
          let same : pid ≡ a = ground arith in
          let none_yet : thread_count a maps ≡ 0 =
            ap (λ z. thread_count z maps) (sym same) ∙ fresh in
          ground (
            arith,
            total-append (λ (m : MapForProcess A). occurrences a m.pids) maps
                (for_process_new map pid ∷ []),
          )
      | inr e ↦ ground (
        arith,
        k.once a,
        total-append (λ (m : MapForProcess A). occurrences a m.pids) maps
            (for_process_new map pid ∷ []),
      )
    ];
  }
