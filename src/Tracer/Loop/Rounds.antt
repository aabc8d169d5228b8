-- ===== src/Tracer/Loop/Rounds.antt =====
-- One round of the loop of track_memory_map.
use ia2_phase.MemoryMap.{IntervalTree}
use ia2_phase.MemoryMap.Operations.{MemoryMap, mark_init_finished, clear}
use ia2_phase.Tracer.{EventInfo}
use ia2_phase.Tracer.Policy.{is_op_permitted}
use ia2_phase.Tracer.Updates.{update_memory_map}
use ia2_phase.Tracer.Keys.{pkey_for_pkru, pkey_invalid}
use ia2_phase.Tracer.Syscalls.{
  UserRegs, TraceMode, interpret_syscall, update_event_with_result, event_marks_init_finished,
  event_is_request_proc_self_maps,
}
use ia2_phase.Tracer.Processes.{
  MapForProcess, ControlFlow, return_true, return_false, continue_loop, remove_pid, add_pending_pid,
  find_memory_map, update_at, add_pid, for_process_new, add_map, handle_thread_exit,
}
use ia2_phase.Tracer.Loop.Traps.{
  WaitTrapResult, wait_syscall, wait_stop, wait_group_stop, wait_exited, wait_signaled,
  wait_sigsegv, wait_sigchld, wait_error, wait_ptrace_clone, wait_ptrace_fork, wait_exec, wait_cont,
}
use ia2_phase.Base.{
  ℕ, Bool, List, Option, none, some, [], ◌∷◌, ◌++◌, ◌==◌, if◌then◌else◌, true, false, ◌>>=◌, suc,
  zero, ◌>>◌, assert, not,
}

-- What the tracer asks of the kernel. `run_syscall` is PTRACE_SYSCALL, which lets the call happen.
pub data Action : Type 0 where
  resume : ℕ → ℕ → Action
  listen run_syscall return_eperm return_self_maps : ℕ → Action

pub data Outcome (t : IntervalTree) : Type 0 where
  finished : Bool → Outcome t
  again : List (MapForProcess (MemoryMap t)) → List ℕ → Outcome t
  blocked halted : Outcome t

-- The answers of one round: the trap, the registers and PKRU at the call, the traps until the call
-- has returned (with the message of PTRACE_GETEVENTMSG), and the value that it returned.
pub record Answers : Type 0 where
  pub waited_pid : ℕ
  pub trap : WaitTrapResult
  pub event_msg : Option ℕ
  pub entry_regs : Option UserRegs
  pub pkru : Option ℕ
  pub init_trap : WaitTrapResult
  pub exit_traps : List (WaitTrapResult × Option ℕ)
  pub exit_rax : Option ℕ
  pub continued : Bool

abbrev pub Round : IntervalTree → Type 0
Round t = List Action × Outcome t

abbrev pub after_init : WaitTrapResult → Bool
after_init wait_syscall = true
after_init wait_sigchld = true
after_init trap = false

abbrev pub may_be_new : WaitTrapResult → Bool
may_be_new wait_syscall = true
may_be_new wait_stop = true
may_be_new trap = false

-- A child that was stopped before it was known goes on.
abbrev pub adopted : ℕ → List ℕ → Option (List ℕ) → List Action × List ℕ
adopted pid pending none = ([], pending)
adopted pid pending (some rest) = (resume pid 19 ∷ [], rest)

abbrev pub adopt : ℕ → List ℕ → List Action × List ℕ
adopt pid pending = adopted pid pending (remove_pid pid pending)

-- The event at the entry of a system call, or `none` where the tracer gives up.
unfoldable pub entry_event : TraceMode → Answers → Option EventInfo
unfolding pkey_for_pkru interpret_syscall
entry_event mode a = do
  regs ← a.entry_regs
  assert (not (regs.orig_rax == 18446744073709551615))
  pkru ← a.pkru
  assert (not (pkey_for_pkru pkru == pkey_invalid))
  interpret_syscall regs (pkey_for_pkru pkru) mode

module _ (t : IntervalTree) where
  abbrev pub Maps : Type 0
  Maps = List (MapForProcess (MemoryMap t))

  abbrev pub with_actions : List Action → Round t → Round t
  with_actions actions r = (actions ++ r.0, r.1)

  abbrev pub map_at : Maps → ℕ → Option (MemoryMap t)
  map_at [] i = none
  map_at (m ∷ ms) zero = some m.map
  map_at (m ∷ ms) (suc i) = map_at ms i

  abbrev pub after_exit : List ℕ → ControlFlow × Maps → Round t
  after_exit pending (return_true, maps) = ([], finished true)
  after_exit pending (return_false, maps) = ([], finished false)
  after_exit pending (continue_loop, maps) = ([], again maps pending)

  abbrev pub recorded : ℕ → ℕ → Maps → List ℕ → Option (Bool × MemoryMap t) → Round t
  recorded pid i maps pending none = ([], halted)
  recorded pid i maps pending (some (false, m)) = ([], finished false)
  recorded pid i maps pending (some (true, m)) =
      (resume pid 0 ∷ [], again (update_at (λ _. m) i maps) pending)

  abbrev pub with_event : ℕ → ℕ → Maps → List ℕ → MemoryMap t → Option EventInfo → Round t
  with_event pid i maps pending m none = (resume pid 0 ∷ [], again maps pending)
  with_event pid i maps pending m (some event) =
      recorded pid i maps pending (update_memory_map t event m)

  -- The result of the call is read and its effect is recorded.
  unfoldable pub syscall_result :
      ℕ → ℕ → EventInfo → Option ℕ → Maps → List ℕ → MemoryMap t → Round t
  unfolding update_event_with_result
  syscall_result pid i event none maps pending m = ([], finished false)
  syscall_result pid i event (some rax) maps pending m =
      with_event pid i maps pending m (update_event_with_result rax event)

  -- `syscall_exit:`, until the call has returned. An exec event on the way clears the map.
  unfoldable pub syscall_exit :
      ℕ
      → ℕ
      → EventInfo
      → Option ℕ
      → List (WaitTrapResult × Option ℕ)
      → Maps
      → List ℕ
      → MemoryMap t
      → Round t
  unfolding syscall_result add_pid handle_thread_exit update_at clear
  syscall_exit pid i event rax [] maps pending m = (run_syscall pid ∷ [], blocked)
  syscall_exit pid i event rax ((wait_stop, msg) ∷ traps) maps pending m =
      with_actions (run_syscall pid ∷ []) (syscall_result pid i event rax maps pending m)
  syscall_exit pid i event rax ((wait_syscall, msg) ∷ traps) maps pending m =
      with_actions (run_syscall pid ∷ []) (syscall_result pid i event rax maps pending m)
  syscall_exit pid i event rax ((wait_sigchld, msg) ∷ traps) maps pending m =
      with_actions (run_syscall pid ∷ []) (syscall_result pid i event rax maps pending m)
  syscall_exit pid i event rax ((wait_error, msg) ∷ traps) maps pending m =
      (run_syscall pid ∷ [], finished false)
  syscall_exit pid i event rax ((wait_ptrace_clone, none) ∷ traps) maps pending m =
      (run_syscall pid ∷ [], finished true)
  syscall_exit pid i event rax ((wait_ptrace_clone, some cloned) ∷ traps) maps pending m =
      with_actions (run_syscall pid ∷ [])
        (syscall_result pid i event rax (add_pid cloned i maps) pending m)
  syscall_exit pid i event rax ((wait_exited, msg) ∷ traps) maps pending m =
      with_actions (run_syscall pid ∷ []) (after_exit pending (handle_thread_exit pid maps))
  syscall_exit pid i event rax ((wait_exec, msg) ∷ traps) maps pending m =
      with_actions (run_syscall pid ∷ [])
        (syscall_exit pid i event rax traps (update_at (clear t) i maps) pending (clear t m))
  syscall_exit pid i event rax ((trap, msg) ∷ traps) maps pending m =
      (run_syscall pid ∷ [], finished true)

  abbrev pub on_verdict :
      Answers → ℕ → EventInfo → Maps → List ℕ → MemoryMap t → Option Bool → Round t
  on_verdict a i event maps pending m none = ([], halted)
  on_verdict a i event maps pending m (some false) = (
    return_eperm a.waited_pid ∷ resume a.waited_pid 0 ∷ [],
    if a.continued then again maps pending else finished false,
  )
  on_verdict a i event maps pending m (some true) =
      syscall_exit a.waited_pid i event a.exit_rax a.exit_traps maps pending m

  abbrev pub on_init : Answers → ℕ → EventInfo → Maps → List ℕ → Bool × MemoryMap t → Round t
  on_init a i event maps pending (false, m) = ([], finished false)
  on_init a i event maps pending (true, m) = with_actions (run_syscall a.waited_pid ∷ []) (
      if after_init a.init_trap
      then syscall_exit a.waited_pid i event a.exit_rax a.exit_traps (update_at (λ _. m) i maps)
          pending m
      else ([], finished false))

  unfoldable pub on_event : Answers → ℕ → EventInfo → Maps → List ℕ → MemoryMap t → Round t
  unfolding event_marks_init_finished event_is_request_proc_self_maps is_op_permitted
      mark_init_finished
  on_event a i event maps pending m =
      if event_marks_init_finished event
      then on_init a i event maps pending (mark_init_finished t m)
      else if event_is_request_proc_self_maps event
      then (
        return_self_maps a.waited_pid ∷ resume a.waited_pid 0 ∷ [],
        if a.continued then again maps pending else finished false,
      )
      else on_verdict a i event maps pending m (is_op_permitted t m event)

  abbrev pub on_entry_event :
      Answers → ℕ → Maps → List ℕ → Option EventInfo → Option (MemoryMap t) → Round t
  on_entry_event a i maps pending none m = ([], finished false)
  on_entry_event a i maps pending (some event) none = ([], halted)
  on_entry_event a i maps pending (some event) (some m) = on_event a i event maps pending m

  unfoldable pub on_syscall : TraceMode → Answers → ℕ → Maps → List ℕ → Round t
  unfolding entry_event
  on_syscall mode a i maps pending =
      on_entry_event a i maps pending (entry_event mode a) (map_at maps i)

  unfoldable pub forked : ℕ → Option (MemoryMap t) → Maps → Maps
  unfolding for_process_new
  forked pid none maps = maps
  forked pid (some m) maps = add_map (for_process_new m pid) maps

  -- A message that cannot be read ends the loop with WAIT_ERROR, which is not 0.
  unfoldable pub on_trap :
      TraceMode → Answers → ℕ → Maps → List ℕ → WaitTrapResult → Option ℕ → Round t
  unfolding on_syscall forked add_pid update_at clear handle_thread_exit
  on_trap mode a i maps pending wait_cont msg = (resume a.waited_pid 18 ∷ [], again maps pending)
  on_trap mode a i maps pending wait_stop msg = (resume a.waited_pid 19 ∷ [], again maps pending)
  on_trap mode a i maps pending wait_sigchld msg = (resume a.waited_pid 17 ∷ [], again maps pending)
  on_trap mode a i maps pending wait_sigsegv msg = (resume a.waited_pid 11 ∷ [], again maps pending)
  on_trap mode a i maps pending wait_group_stop msg = (listen a.waited_pid ∷ [], again maps pending)
  on_trap mode a i maps pending wait_syscall msg = on_syscall mode a i maps pending
  on_trap mode a i maps pending wait_error msg = ([], finished false)
  on_trap mode a i maps pending wait_ptrace_clone none = ([], finished true)
  on_trap mode a i maps pending wait_ptrace_clone (some cloned) =
      let (actions, rest) = adopt cloned pending in
      with_actions actions (on_syscall mode a i (add_pid cloned i maps) rest)
  on_trap mode a i maps pending wait_ptrace_fork none = ([], finished true)
  on_trap mode a i maps pending wait_ptrace_fork (some cloned) =
      let (actions, rest) = adopt cloned pending in
      with_actions actions (on_syscall mode a i (forked cloned (map_at maps i) maps) rest)
  on_trap mode a i maps pending wait_exec msg =
      on_syscall mode a i (update_at (clear t) i maps) pending
  on_trap mode a i maps pending wait_signaled msg = ([], finished false)
  on_trap mode a i maps pending wait_exited msg =
      after_exit pending (handle_thread_exit a.waited_pid maps)

  abbrev pub on_waited : TraceMode → Answers → Maps → List ℕ → Option ℕ → Round t
  on_waited mode a maps pending none = (
    [],
    if may_be_new a.trap then again maps (add_pending_pid a.waited_pid pending) else finished false,
  )
  on_waited mode a maps pending (some i) = on_trap mode a i maps pending a.trap a.event_msg

  -- One pass through `while (true)`.
  unfoldable pub round : TraceMode → Answers → Maps → List ℕ → Round t
  unfolding find_memory_map
  round mode a maps pending = on_waited mode a maps pending (find_memory_map a.waited_pid maps)
