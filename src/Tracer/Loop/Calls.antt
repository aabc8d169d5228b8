-- ===== src/Tracer/Loop/Calls.antt =====
-- One system call that a round lets run or refuses, from its entry to its exit, keeps the invariant
-- of the loop.
use ia2_phase.Tracer.Loop.Kept.{
  Preserves, Sound, Cause, Kept, AreBorn, Sound-update_at, Sound-add_pid, after_exit-Kept,
  AreBorn-same,
}
use ia2_phase.MemoryMap.{IntervalTree}
use ia2_phase.MemoryMap.Operations.{MemoryMap, clear, mark_init_finished}
use ia2_phase.Tracer.{EventInfo}
use ia2_phase.Tracer.Policy.{is_op_permitted}
use ia2_phase.Tracer.Updates.{update_memory_map}
use ia2_phase.Tracer.Syscalls.{
  TraceMode, with_result, update_event_with_result, event_marks_init_finished,
  event_is_request_proc_self_maps,
}
use ia2_phase.Tracer.Processes.{add_pid, update_at}
use ia2_phase.Tracer.Processes.Maps.{length-update_at, update_at-count}
use ia2_phase.Tracer.Loop.Traps.{
  WaitTrapResult, wait_syscall, wait_stop, wait_group_stop, wait_exited, wait_signaled,
  wait_sigsegv, wait_sigchld, wait_error, wait_ptrace_clone, wait_ptrace_fork, wait_exec, wait_cont,
}
use ia2_phase.Tracer.Loop.Rounds.{
  Answers, Maps, again, finished, entry_event, syscall_result, syscall_exit, recorded, on_init,
  on_event, after_init, on_verdict,
}
use ia2_phase.Base.{
  ℕ, List, Option, some, [], ◌∷◌, ◌≡◌, ◌<◌, true, length, All, Bool, Bool-cases, none, arith, leb,
  false, refl, inr, inl, if◌then◌else◌,
}

module _ (t : IntervalTree) (mode : TraceMode) (a : Answers) (I : MemoryMap t → Type 0) (E : Type 0)
    (p : Preserves t mode a I E) where
  recorded-Kept :
      (i : ℕ) (maps : Maps t) (pending : List ℕ) (result : Option (Bool × MemoryMap t))
      → Sound t mode a I E maps
      → ((u : MemoryMap t) → result ≡ some (true, u) → I u)
      → Kept t mode a I E (recorded t a.waited_pid i maps pending result).1
  recorded-Kept i maps pending none h g = tt
  recorded-Kept i maps pending (some (false, u)) h g = tt
  recorded-Kept i maps pending (some (true, u)) h g =
      Sound-update_at t mode a I E (λ _. u) i maps (λ m _. g u refl) h

  syscall_result-Kept :
      (i : ℕ) (event : EventInfo) (rax : Option ℕ) (maps : Maps t) (pending : List ℕ)
      (m : MemoryMap t)
      → a.exit_rax ≡ rax
      → entry_event mode a ≡ some event
      → Sound t mode a I E maps
      → I m
      → Cause t mode a I E event m
      → Kept t mode a I E (syscall_result t a.waited_pid i event rax maps pending m).1
  unfolding syscall_result update_event_with_result
  syscall_result-Kept i event none maps pending m r e h k c = tt
  syscall_result-Kept i event (some rax) maps pending m r e h k c =
      elim (Bool-cases (leb 9223372036854775808 rax)) [
        | inl failed ↦ rw failed h
        | inr ok ↦ rw ok (
            recorded-Kept i maps pending (update_memory_map t (with_result rax event) m) h
              (λ u done. p.updates event rax m u e r ok c k done))
      ]

  syscall_exit-Kept :
      (i : ℕ) (event : EventInfo) (traps : List (WaitTrapResult × Option ℕ)) (maps : Maps t)
      (pending : List ℕ) (m : MemoryMap t)
      → entry_event mode a ≡ some event
      → Sound t mode a I E maps
      → i < length maps
      → I m
      → Cause t mode a I E event m
      → AreBorn traps maps
      → All (λ x. x.0 ≡ wait_exec → E) traps
      → Kept t mode a I E (syscall_exit t a.waited_pid i event a.exit_rax traps maps pending m).1
  unfolding syscall_exit
  syscall_exit-Kept i event [] maps pending m e h l k c b x = tt
  syscall_exit-Kept i event ((wait_stop, msg) ∷ traps) maps pending m e h l k c b x =
      syscall_result-Kept i event a.exit_rax maps pending m refl e h k c
  syscall_exit-Kept i event ((wait_syscall, msg) ∷ traps) maps pending m e h l k c b x =
      syscall_result-Kept i event a.exit_rax maps pending m refl e h k c
  syscall_exit-Kept i event ((wait_sigchld, msg) ∷ traps) maps pending m e h l k c b x =
      syscall_result-Kept i event a.exit_rax maps pending m refl e h k c
  syscall_exit-Kept i event ((wait_error, msg) ∷ traps) maps pending m e h l k c b x = tt
  syscall_exit-Kept i event ((wait_ptrace_clone, none) ∷ traps) maps pending m e h l k c b x = tt
  syscall_exit-Kept i event ((wait_ptrace_clone, some new) ∷ traps) maps pending m e h l k c b x =
      syscall_result-Kept i event a.exit_rax (add_pid new i maps) pending m refl e
        (Sound-add_pid t mode a I E new i maps l (b.0 refl new refl) h) k c
  syscall_exit-Kept i event ((wait_exited, msg) ∷ traps) maps pending m e h l k c b x =
      after_exit-Kept t mode a I E a.waited_pid maps pending h
  syscall_exit-Kept i event ((wait_exec, msg) ∷ traps) maps pending m e h l k c b x =
      let w = x.0 refl in
      let cleared = update_at (clear t) i maps in
      syscall_exit-Kept i event traps cleared pending (clear t m) e
        (Sound-update_at t mode a I E (clear t) i maps (λ m0 k0. p.clears m0 w k0) h)
        (omega (arith, length-update_at (clear t) i maps)) (p.clears m w k) (inr (inr w))
        (AreBorn-same traps maps cleared (λ n. update_at-count (clear t) n i maps) b.1) x.1
  syscall_exit-Kept i event ((wait_signaled, msg) ∷ traps) maps pending m e h l k c b x = tt
  syscall_exit-Kept i event ((wait_sigsegv, msg) ∷ traps) maps pending m e h l k c b x = tt
  syscall_exit-Kept i event ((wait_group_stop, msg) ∷ traps) maps pending m e h l k c b x = tt
  syscall_exit-Kept i event ((wait_ptrace_fork, msg) ∷ traps) maps pending m e h l k c b x = tt
  syscall_exit-Kept i event ((wait_cont, msg) ∷ traps) maps pending m e h l k c b x = tt

  abbrev AreExecs : Type 0
  AreExecs = All (λ x. x.0 ≡ wait_exec → E) a.exit_traps

  on_init-Kept :
      (i : ℕ) (event : EventInfo) (maps : Maps t) (pending : List ℕ) (m : MemoryMap t)
      (marked : Bool × MemoryMap t)
      → mark_init_finished t m ≡ marked
      → entry_event mode a ≡ some event
      → Sound t mode a I E maps
      → i < length maps
      → I m
      → AreBorn a.exit_traps maps
      → AreExecs
      → Kept t mode a I E (on_init t a i event maps pending marked).1
  on_init-Kept i event maps pending m (false, u) f e h l k b x = tt
  on_init-Kept i event maps pending m (true, u) f e h l k b x =
      elim (Bool-cases (after_init a.init_trap)) [
        | inl go ↦ rw go (
            let known = p.marks m u k f in
            let marked = update_at (λ _. u) i maps in
            syscall_exit-Kept i event a.exit_traps marked pending u e
              (Sound-update_at t mode a I E (λ _. u) i maps (λ m0 _. known) h)
              (omega (arith, length-update_at (λ (_ : MemoryMap t). u) i maps)) known
              (inr (inl (m, k, f)))
              (AreBorn-same a.exit_traps maps marked
                (λ n. update_at-count (λ (_ : MemoryMap t). u) n i maps) b)
              x)
        | inr stop ↦ rw stop tt
      ]

  pub on_event-Kept :
      (i : ℕ) (event : EventInfo) (maps : Maps t) (pending : List ℕ) (m : MemoryMap t)
      → entry_event mode a ≡ some event
      → Sound t mode a I E maps
      → i < length maps
      → I m
      → AreBorn a.exit_traps maps
      → AreExecs
      → Kept t mode a I E (on_event t a i event maps pending m).1
  unfolding on_event
  on_event-Kept i event maps pending m e h l k b x =
      elim (Bool-cases (event_marks_init_finished event)) [
        | inl f ↦ rw (f, on_event) (on_init-Kept i event maps pending m _ refl e h l k b x)
        | inr f ↦
            rw (f, on_event)
              (elim (Bool-cases (event_is_request_proc_self_maps event)) [
                | inl g ↦ rw g (either a.continued)
                | inr g ↦ rw g (verdict (is_op_permitted t m event) refl)
              ])
      ]
    where
      either : (b : Bool) → Kept t mode a I E (if b then again maps pending else finished false)
      either true = h
      either false = tt

      verdict :
          (v : Option Bool)
          → is_op_permitted t m event ≡ v
          → Kept t mode a I E (on_verdict t a i event maps pending m v).1
      verdict none o = tt
      verdict (some false) o = either a.continued
      verdict (some true) o =
          syscall_exit-Kept i event a.exit_traps maps pending m e h l k (inl o) b x
