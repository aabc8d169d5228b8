-- ===== src/Tracer/Loop/Permits.antt =====
-- What a round asks the kernel for: no call is run that the policy does not permit, and a call on
-- foreign memory is refused.
use ia2_phase.MemoryMap.{IntervalTree, RegionState, Range}
use ia2_phase.MemoryMap.Operations.{MemoryMap, clear}
use ia2_phase.MemoryMap.Splits.Whole.{Fits, IsValid, lookup, in_pages}
use ia2_phase.Tracer.{EventInfo}
use ia2_phase.Tracer.Policy.Foreign.{taken_range, is_op_permitted-foreign}
use ia2_phase.Tracer.Isolation.Events.{event_pkey}
use ia2_phase.Tracer.Syscalls.{
  TraceMode, event_marks_init_finished, event_is_request_proc_self_maps,
}
use ia2_phase.Tracer.Processes.{find_memory_map, add_pid, handle_thread_exit, remove_pid}
use ia2_phase.Tracer.Processes.Threads.{find_memory_map-cases}
use ia2_phase.Tracer.Loop.Traps.{
  WaitTrapResult, wait_syscall, wait_stop, wait_group_stop, wait_exited, wait_signaled,
  wait_sigsegv, wait_sigchld, wait_error, wait_ptrace_clone, wait_ptrace_fork, wait_exec, wait_cont,
}
use ia2_phase.Tracer.Loop.Rounds.{
  Answers, Action, listen, run_syscall, return_self_maps, resume, return_eperm, again, finished,
  Maps, map_at, entry_event, on_syscall, on_entry_event, on_trap, on_waited, round, forked, adopt,
  on_verdict,
}
use ia2_phase.Tracer.Loop.Guards.{
  runs_syscall, Guarded, on_syscall-Guarded, map_at-add_pid, map_at-forked, map_at-clear,
  adopted-runs_syscall, after_exit-runs_syscall, on_event-on_verdict,
}
use ia2_phase.Tracer.Loop.Requests.{IsOwn, round-IsOwn}
use ia2_phase.Base.{
  All, ℕ, List, Option, some, none, [], ◌∷◌, ◌≡◌, ◌≢◌, ◌⊎◌, ◌<◌, length, true, false, refl, sym, ap,
  ◌∙◌, subst, inl, inr, if◌then◌else◌,
}

module _ (t : IntervalTree) where
  -- The map that the policy was asked about is that of the process, cleared by an exec.
  abbrev pub Permitted : TraceMode → Answers → Maps t → ℕ → Type 0
  Permitted mode a maps i =
      (m : MemoryMap t) × (map_at t maps i ≡ some m)
      × (Guarded t mode a m ⊎ ((a.trap ≡ wait_exec) × Guarded t mode a (clear t m)))

  moved :
      (mode : TraceMode) (a : Answers) (maps maps' : Maps t) (i : ℕ)
      → map_at t maps' i ≡ map_at t maps i
      → (m : MemoryMap t) × (map_at t maps' i ≡ some m) × Guarded t mode a m
      → Permitted mode a maps i
  moved mode a maps maps' i e (m, f, g) = (m, sym e ∙ f, inl g)

  on_trap-Permitted :
      (mode : TraceMode) (a : Answers) (i : ℕ) (maps : Maps t) (pending : List ℕ)
      (trap : WaitTrapResult) (msg : Option ℕ)
      → i < length maps
      → a.trap ≡ trap
      → runs_syscall (on_trap t mode a i maps pending trap msg).0 ≡ true
      → Permitted mode a maps i
  unfolding on_trap
  on_trap-Permitted mode a i maps pending wait_cont msg l e h = cc
  on_trap-Permitted mode a i maps pending wait_stop msg l e h = cc
  on_trap-Permitted mode a i maps pending wait_sigchld msg l e h = cc
  on_trap-Permitted mode a i maps pending wait_sigsegv msg l e h = cc
  on_trap-Permitted mode a i maps pending wait_group_stop msg l e h = cc
  on_trap-Permitted mode a i maps pending wait_error msg l e h = cc
  on_trap-Permitted mode a i maps pending wait_signaled msg l e h = cc
  on_trap-Permitted mode a i maps pending wait_exited msg l e h =
      let no = after_exit-runs_syscall t pending (handle_thread_exit a.waited_pid maps) in cc
  on_trap-Permitted mode a i maps pending wait_syscall msg l e h =
      moved mode a maps maps i refl (on_syscall-Guarded t mode a i maps pending h)
  on_trap-Permitted mode a i maps pending wait_ptrace_clone none l e h = cc
  on_trap-Permitted mode a i maps pending wait_ptrace_clone (some cloned) l e h =
      moved mode a maps (add_pid cloned i maps) i (map_at-add_pid t cloned i i maps) (
        on_syscall-Guarded t mode a i _ _ (
          sym (
            adopted-runs_syscall t cloned pending (remove_pid cloned pending)
              (on_syscall t mode a i (add_pid cloned i maps) (adopt cloned pending).1))
          ∙ h))
  on_trap-Permitted mode a i maps pending wait_ptrace_fork none l e h = cc
  on_trap-Permitted mode a i maps pending wait_ptrace_fork (some cloned) l e h =
      moved mode a maps (forked t cloned (map_at t maps i) maps) i
        (map_at-forked t cloned i (map_at t maps i) maps l)
        (on_syscall-Guarded t mode a i _ _ (
          sym (
            adopted-runs_syscall t cloned pending (remove_pid cloned pending) (
              on_syscall t mode a i (forked t cloned (map_at t maps i) maps)
                (adopt cloned pending).1))
          ∙ h))
  on_trap-Permitted mode a i maps pending wait_exec msg l e h =
      let (m, f, g) = on_syscall-Guarded t mode a i _ pending h in
      let (m0, f0, c) = map_at-clear t i maps m f in (m0, f0, inr (e, subst (Guarded t mode a) c g))

  run-Permitted :
      (mode : TraceMode) (a : Answers) (maps : Maps t) (pending : List ℕ)
      → runs_syscall (round t mode a maps pending).0 ≡ true
      → (i : ℕ) × (find_memory_map a.waited_pid maps ≡ some i) × Permitted mode a maps i
  unfolding round
  run-Permitted mode a maps pending h = elim (find_memory_map-cases a.waited_pid maps) [
    | inl (e, n) ↦
        let no : runs_syscall (on_waited t mode a maps pending none).0 ≡ true =
          subst (λ f. runs_syscall (on_waited t mode a maps pending f).0 ≡ true) e h in
        cc
    | inr (i, e, l, n) ↦ (
      i,
      e,
      on_trap-Permitted mode a i maps pending a.trap a.event_msg l refl
          (subst (λ f. runs_syscall (on_waited t mode a maps pending f).0 ≡ true) e h),
    )
  ]

  -- A request is for the process that was waited for, and runs a system call only if it is permitted,
  -- or it continues the child of the trap's message, which was pending.
  abbrev pub IsMeant : TraceMode → Answers → Maps t → List ℕ → Action → Type 0
  IsMeant mode a maps pending (run_syscall pid) =
      (pid ≡ a.waited_pid) × (i : ℕ) × (find_memory_map pid maps ≡ some i) × Permitted mode a maps i
  IsMeant mode a maps pending (resume pid signal) = IsOwn t a pending (resume pid signal)
  IsMeant mode a maps pending (listen pid) = IsOwn t a pending (listen pid)
  IsMeant mode a maps pending (return_eperm pid) = IsOwn t a pending (return_eperm pid)
  IsMeant mode a maps pending (return_self_maps pid) = IsOwn t a pending (return_self_maps pid)

  All-IsMeant :
      (mode : TraceMode) (a : Answers) (maps : Maps t) (pending : List ℕ) (actions : List Action)
      → All (IsOwn t a pending) actions
      → (runs_syscall actions ≡ true
          → (i : ℕ) × (find_memory_map a.waited_pid maps ≡ some i) × Permitted mode a maps i)
      → All (IsMeant mode a maps pending) actions
  All-IsMeant mode a maps pending [] own h = tt
  All-IsMeant mode a maps pending (run_syscall pid ∷ actions) own h =
      let (i, e, k) = h refl in
      (
        (own.0, i, subst (λ p. find_memory_map p maps ≡ some i) (sym own.0) e, k),
        All-IsMeant mode a maps pending actions own.1 (λ _. h refl),
      )
  All-IsMeant mode a maps pending (resume pid signal ∷ actions) own h =
      (own.0, All-IsMeant mode a maps pending actions own.1 h)
  All-IsMeant mode a maps pending (listen pid ∷ actions) own h =
      (own.0, All-IsMeant mode a maps pending actions own.1 h)
  All-IsMeant mode a maps pending (return_eperm pid ∷ actions) own h =
      (own.0, All-IsMeant mode a maps pending actions own.1 h)
  All-IsMeant mode a maps pending (return_self_maps pid ∷ actions) own h =
      (own.0, All-IsMeant mode a maps pending actions own.1 h)

  -- Every request of a round of the loop is for the process that was waited for, except to continue
  -- a child that was pending and whose number is the message of the trap. A request to run a system
  -- call to its exit (PTRACE_SYSCALL) is made only if that process is known and the event of its
  -- registers marks the end of the initialization or is permitted by the policy in the map of that
  -- process (cleared before, where the trap is an exec). Requests that continue a process ask
  -- nothing of the policy: which call runs after them is not considered.
  pub round-Permitted :
      (mode : TraceMode) (a : Answers) (maps : Maps t) (pending : List ℕ)
      → All (IsMeant mode a maps pending) (round t mode a maps pending).0
  round-Permitted mode a maps pending =
      All-IsMeant mode a maps pending _ (round-IsOwn t a pending mode maps)
        (run-Permitted mode a maps pending)

  -- If the process is known and its map is valid, then a munmap, madvise, fixed mmap or mremap (not
  -- one of the two signals to the tracer) is not run if its range, for a mremap the old range, is not
  -- empty, does not wrap and touches a page of another compartment than the caller's: the process
  -- gets EPERM and goes on, and no map changes. The new range of a mremap is not considered.
  pub round-foreign :
      (mode : TraceMode) (a : Answers) (maps : Maps t) (pending : List ℕ) (i addr : ℕ)
      (m : MemoryMap t) (s : RegionState) (event : EventInfo) (r : Range)
      → a.trap ≡ wait_syscall
      → find_memory_map a.waited_pid maps ≡ some i
      → map_at t maps i ≡ some m
      → IsValid t m
      → lookup t m addr ≡ some s
      → entry_event mode a ≡ some event
      → event_marks_init_finished event ≡ false
      → event_is_request_proc_self_maps event ≡ false
      → taken_range event ≡ some r
      → Fits r
      → in_pages r addr ≡ true
      → s.owner_pkey ≢ event_pkey event
      → round t mode a maps pending ≡ (
        return_eperm a.waited_pid ∷ resume a.waited_pid 0 ∷ [],
        if a.continued then again maps pending else finished false,
      )
  unfolding round on_trap on_syscall
  round-foreign mode a maps pending i addr m s event r tr found at v mapped entry k l tk f inside
        other =
      let no = is_op_permitted-foreign t m v addr s mapped event r tk f inside other in
      ap (on_waited t mode a maps pending) found
      ∙ ap (λ w. on_trap t mode a i maps pending w a.event_msg) tr
      ∙ ap (λ w. on_entry_event t a i maps pending w (map_at t maps i)) entry
      ∙ ap (on_entry_event t a i maps pending (some event)) at
      ∙ on_event-on_verdict t a i event maps pending m k l
      ∙ ap (on_verdict t a i event maps pending m) no
