-- ===== src/Tracer/Loop/Kept.antt =====
-- What a round of the loop keeps: the processes stay tracked, and a property of memory maps that
-- the permitted updates keep holds of the map of every process.
use ia2_phase.MemoryMap.{IntervalTree}
use ia2_phase.MemoryMap.Operations.{MemoryMap, clear, mark_init_finished}
use ia2_phase.Tracer.{EventInfo}
use ia2_phase.Tracer.Policy.{is_op_permitted}
use ia2_phase.Tracer.Updates.{update_memory_map}
use ia2_phase.Tracer.Syscalls.{TraceMode, with_result}
use ia2_phase.Tracer.Processes.{
  MapForProcess, ControlFlow, return_true, return_false, continue_loop, add_pid, update_at,
  handle_thread_exit,
}
use ia2_phase.Tracer.Processes.Removal.{thread_count}
use ia2_phase.Tracer.Processes.Threads.{IsTracked}
use ia2_phase.Tracer.Processes.Arrivals.{add_pid-IsTracked}
use ia2_phase.Tracer.Processes.Maps.{
  AllMaps, AllMaps-add_pid, AllMaps-handle_thread_exit, handle_thread_exit-IsTracked,
  update_at-IsTracked,
}
use ia2_phase.Tracer.Loop.Traps.{WaitTrapResult, wait_ptrace_clone}
use ia2_phase.Tracer.Loop.Rounds.{
  Answers, Outcome, Maps, again, finished, blocked, halted, entry_event, after_exit,
}
use ia2_phase.Base.{
  ℕ, List, Option, some, [], ◌∷◌, ◌≡◌, ◌⊎◌, ◌<◌, true, ◌∙◌, zero, suc, length, All, leb, false,
}

-- A thread that is cloned while a call runs is in none of the processes.
abbrev pub AreBorn {ℓ} :
    {A : Type ℓ} → List (WaitTrapResult × Option ℕ) → List (MapForProcess A) → Type 0
AreBorn traps maps =
    All (λ x. x.0 ≡ wait_ptrace_clone → (c : ℕ) → x.1 ≡ some c → thread_count c maps ≡ 0) traps

pub AreBorn-same {ℓ} :
    {A : Type ℓ} (traps : List (WaitTrapResult × Option ℕ)) (maps maps' : List (MapForProcess A))
    → ((c : ℕ) → thread_count c maps' ≡ thread_count c maps)
    → AreBorn traps maps
    → AreBorn traps maps'
AreBorn-same [] maps maps' e h = tt
AreBorn-same (x ∷ xs) maps maps' e h =
    ((λ k c n. e c ∙ h.0 k c n), AreBorn-same xs maps maps' e h.1)

module _ (t : IntervalTree) (mode : TraceMode) (a : Answers) (I : MemoryMap t → Type 0)
    (E : Type 0) where
  -- Why the effect of an event is recorded in a map: the policy allowed it, the map has just been
  -- marked, or `E`.
  abbrev pub Cause : EventInfo → MemoryMap t → Type 0
  Cause event m =
      (is_op_permitted t m event ≡ some true)
      ⊎ (((m0 : MemoryMap t) × I m0 × (mark_init_finished t m0 ≡ (true, m))) ⊎ E)

  -- The operations on one memory map keep the property. `E` is what an exec needs.
  pub record Preserves : Type 0 where
    pub clears : (m : MemoryMap t) → E → I m → I (clear t m)
    pub marks : (m u : MemoryMap t) → I m → mark_init_finished t m ≡ (true, u) → I u
    pub updates :
        (event : EventInfo) (rax : ℕ) (m u : MemoryMap t)
        → entry_event mode a ≡ some event
        → a.exit_rax ≡ some rax
        → leb 9223372036854775808 rax ≡ false
        → Cause event m
        → I m
        → update_memory_map t (with_result rax event) m ≡ some (true, u)
        → I u

  pub record Sound (maps : Maps t) : Type 0 where
    pub tracked : IsTracked maps
    pub each : AllMaps I maps

  -- Where the loop goes on, its state is sound.
  abbrev pub Kept : Outcome t → Type 0
  Kept (finished b) = Unit
  Kept (again maps pending) = Sound maps
  Kept blocked = Unit
  Kept halted = Unit

  AllMaps-update_at :
      (f : MemoryMap t → MemoryMap t) (i : ℕ) (maps : Maps t)
      → ((m : MemoryMap t) → I m → I (f m))
      → AllMaps I maps
      → AllMaps I (update_at f i maps)
  unfolding update_at
  AllMaps-update_at f i [] g h = tt
  AllMaps-update_at f zero (m ∷ ms) g h = (g m.map h.0, h.1)
  AllMaps-update_at f (suc i) (m ∷ ms) g h = (h.0, AllMaps-update_at f i ms g h.1)

  pub Sound-update_at :
      (f : MemoryMap t → MemoryMap t) (i : ℕ) (maps : Maps t)
      → ((m : MemoryMap t) → I m → I (f m))
      → Sound maps
      → Sound (update_at f i maps)
  Sound-update_at f i maps g h = record {
    tracked = update_at-IsTracked f i maps h.tracked;
    each = AllMaps-update_at f i maps g h.each;
  }

  pub Sound-add_pid :
      (pid i : ℕ) (maps : Maps t)
      → i < length maps
      → thread_count pid maps ≡ 0
      → Sound maps
      → Sound (add_pid pid i maps)
  Sound-add_pid pid i maps l z h = record {
    tracked = add_pid-IsTracked pid i maps h.tracked l z;
    each = AllMaps-add_pid I pid i maps h.each;
  }

  pub after_exit-Kept :
      (pid : ℕ) (maps : Maps t) (pending : List ℕ)
      → Sound maps
      → Kept (after_exit t pending (handle_thread_exit pid maps)).1
  after_exit-Kept pid maps pending h =
      go (handle_thread_exit pid maps) (handle_thread_exit-IsTracked pid maps h.tracked)
        (AllMaps-handle_thread_exit I pid maps h.each)
    where
      go :
          (result : ControlFlow × Maps t)
          → IsTracked result.1
          → AllMaps I result.1
          → Kept (after_exit t pending result).1
      go (return_true, maps) k l = tt
      go (return_false, maps) k l = tt
      go (continue_loop, maps) k l = record { tracked = k; each = l }
