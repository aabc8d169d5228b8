-- ===== src/Tracer/Loop/Requests.antt =====
-- For which process a round of the loop makes each of its requests.
use ia2_phase.MemoryMap.{IntervalTree}
use ia2_phase.MemoryMap.Operations.{MemoryMap, clear, mark_init_finished}
use ia2_phase.Tracer.{EventInfo}
use ia2_phase.Tracer.Policy.{is_op_permitted}
use ia2_phase.Tracer.Updates.{update_memory_map}
use ia2_phase.Tracer.Syscalls.{update_event_with_result}
use ia2_phase.Tracer.Syscalls.{
  TraceMode, event_marks_init_finished, event_is_request_proc_self_maps,
}
use ia2_phase.Tracer.Processes.{
  ControlFlow, return_true, return_false, continue_loop, add_pid, update_at, handle_thread_exit,
  remove_pid, find_memory_map,
}
use ia2_phase.Tracer.Loop.Traps.{
  WaitTrapResult, wait_syscall, wait_stop, wait_group_stop, wait_exited, wait_signaled,
  wait_sigsegv, wait_sigchld, wait_error, wait_ptrace_clone, wait_ptrace_fork, wait_exec, wait_cont,
}
use ia2_phase.Tracer.Loop.Rounds.{
  Action, Answers, resume, listen, run_syscall, return_eperm, return_self_maps, Maps, map_at,
  entry_event, on_syscall, on_event, on_entry_event, on_verdict, on_init, forked, after_exit,
  adopted, recorded, with_event, syscall_result, syscall_exit, after_init, on_trap, on_waited,
  round,
}
use ia2_phase.Base.{
  ℕ, Bool, List, Option, some, none, [], ◌∷◌, ◌≡◌, ◌≢◌, ◌⊎◌, true, false, refl, inl, inr, All,
  Bool-cases, All-append,
}

module _ (t : IntervalTree) (a : Answers) (waiting : List ℕ) where
  -- The request is for the process that was waited for, or continues the child of which the trap's
  -- message tells and which was pending.
  abbrev pub IsOwn : Action → Type 0
  IsOwn (run_syscall pid) = pid ≡ a.waited_pid
  IsOwn (listen pid) = pid ≡ a.waited_pid
  IsOwn (return_eperm pid) = pid ≡ a.waited_pid
  IsOwn (return_self_maps pid) = pid ≡ a.waited_pid
  IsOwn (resume pid signal) =
      (pid ≡ a.waited_pid) ⊎ ((a.event_msg ≡ some pid) × (remove_pid pid waiting ≢ none))

  after_exit-IsOwn :
      (pending : List ℕ) (r : ControlFlow × Maps t) → All IsOwn (after_exit t pending r).0
  after_exit-IsOwn pending (return_true, maps) = tt
  after_exit-IsOwn pending (return_false, maps) = tt
  after_exit-IsOwn pending (continue_loop, maps) = tt

  recorded-IsOwn :
      (i : ℕ) (maps : Maps t) (pending : List ℕ) (r : Option (Bool × MemoryMap t))
      → All IsOwn (recorded t a.waited_pid i maps pending r).0
  recorded-IsOwn i maps pending none = tt
  recorded-IsOwn i maps pending (some (false, m)) = tt
  recorded-IsOwn i maps pending (some (true, m)) = (inl refl, tt)

  with_event-IsOwn :
      (i : ℕ) (maps : Maps t) (pending : List ℕ) (m : MemoryMap t) (event : Option EventInfo)
      → All IsOwn (with_event t a.waited_pid i maps pending m event).0
  with_event-IsOwn i maps pending m none = (inl refl, tt)
  with_event-IsOwn i maps pending m (some event) =
      recorded-IsOwn i maps pending (update_memory_map t event m)

  syscall_result-IsOwn :
      (i : ℕ) (event : EventInfo) (rax : Option ℕ) (maps : Maps t) (pending : List ℕ)
      (m : MemoryMap t)
      → All IsOwn (syscall_result t a.waited_pid i event rax maps pending m).0
  unfolding syscall_result
  syscall_result-IsOwn i event none maps pending m = tt
  syscall_result-IsOwn i event (some rax) maps pending m =
      with_event-IsOwn i maps pending m (update_event_with_result rax event)

  syscall_exit-IsOwn :
      (i : ℕ) (event : EventInfo) (rax : Option ℕ) (traps : List (WaitTrapResult × Option ℕ))
      (maps : Maps t) (pending : List ℕ) (m : MemoryMap t)
      → All IsOwn (syscall_exit t a.waited_pid i event rax traps maps pending m).0
  unfolding syscall_exit
  syscall_exit-IsOwn i event rax [] maps pending m = (refl, tt)
  syscall_exit-IsOwn i event rax ((wait_stop, msg) ∷ traps) maps pending m =
      (refl, syscall_result-IsOwn i event rax maps pending m)
  syscall_exit-IsOwn i event rax ((wait_syscall, msg) ∷ traps) maps pending m =
      (refl, syscall_result-IsOwn i event rax maps pending m)
  syscall_exit-IsOwn i event rax ((wait_sigchld, msg) ∷ traps) maps pending m =
      (refl, syscall_result-IsOwn i event rax maps pending m)
  syscall_exit-IsOwn i event rax ((wait_error, msg) ∷ traps) maps pending m = (refl, tt)
  syscall_exit-IsOwn i event rax ((wait_ptrace_clone, none) ∷ traps) maps pending m = (refl, tt)
  syscall_exit-IsOwn i event rax ((wait_ptrace_clone, some cloned) ∷ traps) maps pending m =
      (refl, syscall_result-IsOwn i event rax (add_pid cloned i maps) pending m)
  syscall_exit-IsOwn i event rax ((wait_exited, msg) ∷ traps) maps pending m =
      (refl, after_exit-IsOwn pending (handle_thread_exit a.waited_pid maps))
  syscall_exit-IsOwn i event rax ((wait_exec, msg) ∷ traps) maps pending m =
      (refl, syscall_exit-IsOwn i event rax traps (update_at (clear t) i maps) pending (clear t m))
  syscall_exit-IsOwn i event rax ((wait_ptrace_fork, msg) ∷ traps) maps pending m = (refl, tt)
  syscall_exit-IsOwn i event rax ((wait_group_stop, msg) ∷ traps) maps pending m = (refl, tt)
  syscall_exit-IsOwn i event rax ((wait_signaled, msg) ∷ traps) maps pending m = (refl, tt)
  syscall_exit-IsOwn i event rax ((wait_sigsegv, msg) ∷ traps) maps pending m = (refl, tt)
  syscall_exit-IsOwn i event rax ((wait_cont, msg) ∷ traps) maps pending m = (refl, tt)

  on_verdict-IsOwn :
      (i : ℕ) (event : EventInfo) (maps : Maps t) (pending : List ℕ) (m : MemoryMap t)
      (verdict : Option Bool)
      → All IsOwn (on_verdict t a i event maps pending m verdict).0
  on_verdict-IsOwn i event maps pending m none = tt
  on_verdict-IsOwn i event maps pending m (some false) = (refl, (inl refl, tt))
  on_verdict-IsOwn i event maps pending m (some true) =
      syscall_exit-IsOwn i event a.exit_rax a.exit_traps maps pending m

  on_init-IsOwn :
      (i : ℕ) (event : EventInfo) (maps : Maps t) (pending : List ℕ) (r : Bool × MemoryMap t)
      → All IsOwn (on_init t a i event maps pending r).0
  on_init-IsOwn i event maps pending (false, m) = tt
  on_init-IsOwn i event maps pending (true, m) = elim (Bool-cases (after_init a.init_trap)) [
    | inl h ↦ rw h (
      refl,
      syscall_exit-IsOwn i event a.exit_rax a.exit_traps (update_at (λ _. m) i maps) pending m,
    )
    | inr h ↦ rw h (refl, tt)
  ]

  on_event-IsOwn :
      (i : ℕ) (event : EventInfo) (maps : Maps t) (pending : List ℕ) (m : MemoryMap t)
      → All IsOwn (on_event t a i event maps pending m).0
  unfolding on_event
  on_event-IsOwn i event maps pending m = elim (Bool-cases (event_marks_init_finished event)) [
    | inl k ↦ rw k (on_init-IsOwn i event maps pending (mark_init_finished t m))
    | inr k ↦ rw k (elim (Bool-cases (event_is_request_proc_self_maps event)) [
      | inl l ↦ rw l (refl, (inl refl, tt))
      | inr l ↦ rw l (on_verdict-IsOwn i event maps pending m (is_op_permitted t m event))
    ])
  ]

  on_entry_event-IsOwn :
      (i : ℕ) (maps : Maps t) (pending : List ℕ) (event : Option EventInfo)
      (m : Option (MemoryMap t))
      → All IsOwn (on_entry_event t a i maps pending event m).0
  on_entry_event-IsOwn i maps pending none m = tt
  on_entry_event-IsOwn i maps pending (some event) none = tt
  on_entry_event-IsOwn i maps pending (some event) (some m) = on_event-IsOwn i event maps pending m

  on_syscall-IsOwn :
      (mode : TraceMode) (i : ℕ) (maps : Maps t) (pending : List ℕ)
      → All IsOwn (on_syscall t mode a i maps pending).0
  unfolding on_syscall
  on_syscall-IsOwn mode i maps pending =
      on_entry_event-IsOwn i maps pending (entry_event mode a) (map_at t maps i)

  adopted-IsOwn :
      (pid : ℕ) (found : Option (List ℕ))
      → a.event_msg ≡ some pid
      → remove_pid pid waiting ≡ found
      → All IsOwn (adopted pid waiting found).0
  adopted-IsOwn pid none e f = tt
  adopted-IsOwn pid (some rest) e f = (inr (e, (λ bad. cc)), tt)

  pub on_trap-IsOwn :
      (mode : TraceMode) (i : ℕ) (maps : Maps t) (trap : WaitTrapResult) (msg : Option ℕ)
      → a.event_msg ≡ msg
      → All IsOwn (on_trap t mode a i maps waiting trap msg).0
  unfolding on_trap
  on_trap-IsOwn mode i maps wait_cont msg e = (inl refl, tt)
  on_trap-IsOwn mode i maps wait_stop msg e = (inl refl, tt)
  on_trap-IsOwn mode i maps wait_sigchld msg e = (inl refl, tt)
  on_trap-IsOwn mode i maps wait_sigsegv msg e = (inl refl, tt)
  on_trap-IsOwn mode i maps wait_group_stop msg e = (refl, tt)
  on_trap-IsOwn mode i maps wait_error msg e = tt
  on_trap-IsOwn mode i maps wait_signaled msg e = tt
  on_trap-IsOwn mode i maps wait_exited msg e =
      after_exit-IsOwn waiting (handle_thread_exit a.waited_pid maps)
  on_trap-IsOwn mode i maps wait_syscall msg e = on_syscall-IsOwn mode i maps waiting
  on_trap-IsOwn mode i maps wait_exec msg e =
      on_syscall-IsOwn mode i (update_at (clear t) i maps) waiting
  on_trap-IsOwn mode i maps wait_ptrace_clone none e = tt
  on_trap-IsOwn mode i maps wait_ptrace_clone (some cloned) e =
      All-append IsOwn (adopted cloned waiting (remove_pid cloned waiting)).0 _
        (adopted-IsOwn cloned (remove_pid cloned waiting) e refl)
        (on_syscall-IsOwn mode i (add_pid cloned i maps) _)
  on_trap-IsOwn mode i maps wait_ptrace_fork none e = tt
  on_trap-IsOwn mode i maps wait_ptrace_fork (some cloned) e =
      All-append IsOwn (adopted cloned waiting (remove_pid cloned waiting)).0 _
        (adopted-IsOwn cloned (remove_pid cloned waiting) e refl)
        (on_syscall-IsOwn mode i (forked t cloned (map_at t maps i) maps) _)

  pub round-IsOwn : (mode : TraceMode) (maps : Maps t) → All IsOwn (round t mode a maps waiting).0
  unfolding round
  round-IsOwn mode maps = waited (find_memory_map a.waited_pid maps)
    where
      waited : (found : Option ℕ) → All IsOwn (on_waited t mode a maps waiting found).0
      waited none = tt
      waited (some i) = on_trap-IsOwn mode i maps a.trap a.event_msg refl
