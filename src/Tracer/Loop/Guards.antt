-- ===== src/Tracer/Loop/Guards.antt =====
-- What a round of the loop lets happen.
use ia2_phase.MemoryMap.{IntervalTree}
use ia2_phase.MemoryMap.Operations.{MemoryMap, clear}
use ia2_phase.Tracer.{EventInfo}
use ia2_phase.Tracer.Policy.{is_op_permitted}
use ia2_phase.Tracer.Syscalls.{
  TraceMode, event_marks_init_finished, event_is_request_proc_self_maps,
}
use ia2_phase.Tracer.Processes.{
  MapForProcess, add_pid, update_at, add_map, ControlFlow, return_true, return_false, continue_loop,
}
use ia2_phase.Tracer.Loop.Rounds.{
  Action, Answers, Round, resume, listen, run_syscall, return_eperm, return_self_maps, Maps, map_at,
  entry_event, on_syscall, on_event, on_entry_event, on_verdict, forked, with_actions, after_exit,
  adopted,
}
use ia2_phase.Base.{
  ℕ, Bool, List, Option, some, none, [], ◌∷◌, ◌≡◌, ◌⊎◌, true, false, arith, refl, sym, ap, ◌∙◌,
  Bool-cases, inl, inr, zero, suc, some-injective, ◌<◌, length,
}

-- A system call is run to its exit: the tracer asks for PTRACE_SYSCALL. A request that only continues
-- a process is not counted.
abbrev pub runs_syscall : List Action → Bool
runs_syscall [] = false
runs_syscall (run_syscall pid ∷ actions) = true
runs_syscall (resume pid signal ∷ actions) = runs_syscall actions
runs_syscall (listen pid ∷ actions) = runs_syscall actions
runs_syscall (return_eperm pid ∷ actions) = runs_syscall actions
runs_syscall (return_self_maps pid ∷ actions) = runs_syscall actions

module _ (t : IntervalTree) where
  -- The event was permitted in the map, or it marks the end of the initialization.
  pub record Guarded (mode : TraceMode) (a : Answers) (m : MemoryMap t) : Type 0 where
    pub event : EventInfo
    pub entry : entry_event mode a ≡ some event
    pub allowed : (event_marks_init_finished event ≡ true) ⊎ (is_op_permitted t m event ≡ some true)

  on_verdict-permitted :
      (a : Answers) (i : ℕ) (event : EventInfo) (maps : Maps t) (pending : List ℕ) (m : MemoryMap t)
      (verdict : Option Bool)
      → runs_syscall (on_verdict t a i event maps pending m verdict).0 ≡ true
      → verdict ≡ some true
  on_verdict-permitted a i event maps pending m none h = cc
  on_verdict-permitted a i event maps pending m (some false) h = cc
  on_verdict-permitted a i event maps pending m (some true) h = refl

  on_event-self_maps :
      (a : Answers) (i : ℕ) (event : EventInfo) (maps : Maps t) (pending : List ℕ) (m : MemoryMap t)
      → event_marks_init_finished event ≡ false
      → event_is_request_proc_self_maps event ≡ true
      → runs_syscall (on_event t a i event maps pending m).0 ≡ false
  unfolding on_event
  on_event-self_maps a i event maps pending m k l = rw (k, on_event) (rw l refl)

  pub on_event-on_verdict :
      (a : Answers) (i : ℕ) (event : EventInfo) (maps : Maps t) (pending : List ℕ) (m : MemoryMap t)
      → event_marks_init_finished event ≡ false
      → event_is_request_proc_self_maps event ≡ false
      → on_event t a i event maps pending m
        ≡ on_verdict t a i event maps pending m (is_op_permitted t m event)
  unfolding on_event
  on_event-on_verdict a i event maps pending m k l = rw (k, on_event) (rw l refl)

  on_event-allowed :
      (a : Answers) (i : ℕ) (event : EventInfo) (maps : Maps t) (pending : List ℕ) (m : MemoryMap t)
      → runs_syscall (on_event t a i event maps pending m).0 ≡ true
      → (event_marks_init_finished event ≡ true) ⊎ (is_op_permitted t m event ≡ some true)
  on_event-allowed a i event maps pending m h =
      elim (Bool-cases (event_marks_init_finished event)) [
        | inl k ↦ inl k
        | inr k ↦ inr (elim (Bool-cases (event_is_request_proc_self_maps event)) [
          | inl l ↦ let no = on_event-self_maps a i event maps pending m k l in cc
          | inr l ↦ on_verdict-permitted a i event maps pending m (is_op_permitted t m event) (
              sym (
                ap (λ (r : Round t). runs_syscall r.0)
                  (on_event-on_verdict a i event maps pending m k l))
              ∙ h)
        ])
      ]

  Guarded-entry :
      (mode : TraceMode) (a : Answers) (i : ℕ) (maps : Maps t) (pending : List ℕ)
      (entry : Option EventInfo) (found : Option (MemoryMap t))
      → entry_event mode a ≡ entry
      → map_at t maps i ≡ found
      → runs_syscall (on_entry_event t a i maps pending entry found).0 ≡ true
      → (m : MemoryMap t) × (map_at t maps i ≡ some m) × Guarded mode a m
  Guarded-entry mode a i maps pending none found e f h = cc
  Guarded-entry mode a i maps pending (some event) none e f h = cc
  Guarded-entry mode a i maps pending (some event) (some m) e f h = (
    m,
    f,
    record { event = event; entry = e; allowed = on_event-allowed a i event maps pending m h },
  )

  pub on_syscall-Guarded :
      (mode : TraceMode) (a : Answers) (i : ℕ) (maps : Maps t) (pending : List ℕ)
      → runs_syscall (on_syscall t mode a i maps pending).0 ≡ true
      → (m : MemoryMap t) × (map_at t maps i ≡ some m) × Guarded mode a m
  unfolding on_syscall
  on_syscall-Guarded mode a i maps pending h =
      Guarded-entry mode a i maps pending (entry_event mode a) (map_at t maps i) refl refl h

  -- The map of a process is the same after a thread or another process came.
  pub map_at-add_pid :
      (pid j i : ℕ) (maps : Maps t) → map_at t (add_pid pid j maps) i ≡ map_at t maps i
  unfolding add_pid
  map_at-add_pid pid j i [] = refl
  map_at-add_pid pid zero zero (m ∷ ms) = refl
  map_at-add_pid pid zero (suc i) (m ∷ ms) = refl
  map_at-add_pid pid (suc j) zero (m ∷ ms) = refl
  map_at-add_pid pid (suc j) (suc i) (m ∷ ms) = map_at-add_pid pid j i ms

  map_at-add_map :
      (new : MapForProcess (MemoryMap t)) (i : ℕ) (maps : Maps t)
      → i < length maps
      → map_at t (add_map new maps) i ≡ map_at t maps i
  map_at-add_map new i [] h = absurd (omega arith)
  map_at-add_map new zero (m ∷ ms) h = refl
  map_at-add_map new (suc i) (m ∷ ms) h = map_at-add_map new i ms (omega arith)

  pub map_at-forked :
      (pid i : ℕ) (found : Option (MemoryMap t)) (maps : Maps t)
      → i < length maps
      → map_at t (forked t pid found maps) i ≡ map_at t maps i
  unfolding forked
  map_at-forked pid i none maps h = refl
  map_at-forked pid i (some m) maps h = map_at-add_map _ i maps h

  pub map_at-clear :
      (i : ℕ) (maps : Maps t) (m : MemoryMap t)
      → map_at t (update_at (clear t) i maps) i ≡ some m
      → (m0 : MemoryMap t) × (map_at t maps i ≡ some m0) × (m ≡ clear t m0)
  unfolding update_at
  map_at-clear i [] m h = cc
  map_at-clear zero (p ∷ ps) m h = (p.map, refl, sym (some-injective _ _ h))
  map_at-clear (suc i) (p ∷ ps) m h = map_at-clear i ps m h

  pub adopted-runs_syscall :
      (pid : ℕ) (pending : List ℕ) (found : Option (List ℕ)) (r : Round t)
      → runs_syscall (with_actions t (adopted pid pending found).0 r).0 ≡ runs_syscall r.0
  adopted-runs_syscall pid pending none r = refl
  adopted-runs_syscall pid pending (some rest) r = refl

  pub after_exit-runs_syscall :
      (pending : List ℕ) (result : ControlFlow × Maps t)
      → runs_syscall (after_exit t pending result).0 ≡ false
  after_exit-runs_syscall pending (return_true, maps) = refl
  after_exit-runs_syscall pending (return_false, maps) = refl
  after_exit-runs_syscall pending (continue_loop, maps) = refl
