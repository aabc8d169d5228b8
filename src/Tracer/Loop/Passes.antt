-- ===== src/Tracer/Loop/Passes.antt =====
-- One pass through the loop keeps its invariant, whatever the trap.
use ia2_phase.Tracer.Processes.Threads.{find_memory_map-cases}
use ia2_phase.Tracer.Processes.Arrivals.{add_pid-count, add_map-IsTracked}
use ia2_phase.MemoryMap.{IntervalTree}
use ia2_phase.MemoryMap.Operations.{MemoryMap, clear}
use ia2_phase.Tracer.{EventInfo}
use ia2_phase.Tracer.Syscalls.{TraceMode}
use ia2_phase.Tracer.Processes.{
  MapForProcess, find_memory_map, add_pid, for_process_new, add_map, update_at,
}
use ia2_phase.Tracer.Processes.Removal.{thread_count, total-append, occurrences}
use ia2_phase.Tracer.Processes.Maps.{AllMaps, length-add_pid, length-update_at, update_at-count}
use ia2_phase.Tracer.Loop.Traps.{
  WaitTrapResult, wait_syscall, wait_stop, wait_group_stop, wait_exited, wait_signaled,
  wait_sigsegv, wait_sigchld, wait_error, wait_ptrace_clone, wait_ptrace_fork, wait_exec, wait_cont,
}
use ia2_phase.Tracer.Loop.Rounds.{
  Answers, Maps, entry_event, map_at, on_entry_event, on_syscall, round, forked, on_trap, on_waited,
  may_be_new, adopt,
}
use ia2_phase.Tracer.Loop.Calls.{on_event-Kept}
use ia2_phase.Tracer.Loop.Kept.{
  AreBorn, Preserves, Sound, Kept, Sound-add_pid, Sound-update_at, AreBorn-same, after_exit-Kept,
}
use ia2_phase.Base.{
  ℕ, List, Option, some, none, [], ◌∷◌, ◌≡◌, ◌<◌, ◌+◌, ◌==◌, arith, refl, ap, ◌∙◌, Bool-cases, inl,
  inr, zero, suc, some-injective, length, All, if◌then◌else◌, subst, sym, All-append, length-append,
}

-- The kernel gives a new thread a number that no known thread has.
pub record GivesNew {ℓ} {A : Type ℓ} (a : Answers) (maps : List (MapForProcess A)) : Type 0 where
  pub arrived : (c : ℕ) → a.event_msg ≡ some c → thread_count c maps ≡ 0
  pub born : AreBorn a.exit_traps maps
  pub other : All (λ x. (c : ℕ) → x.1 ≡ some c → a.event_msg ≡ some c → ⊥) a.exit_traps

AreBorn-added :
    {A : Type 0} (c : ℕ) (msg : Option ℕ) (traps : List (WaitTrapResult × Option ℕ))
    (maps maps' : List (MapForProcess A))
    → msg ≡ some c
    → ((n : ℕ) → thread_count n maps' ≡ thread_count n maps + (if c == n then 1 else 0))
    → All (λ x. (n : ℕ) → x.1 ≡ some n → msg ≡ some n → ⊥) traps
    → AreBorn traps maps
    → AreBorn traps maps'
AreBorn-added c msg [] maps maps' e f o h = tt
AreBorn-added c msg (x ∷ xs) maps maps' e f o h = (
  (λ k n q. elim (Bool-cases (c == n)) [
    | inl same ↦ absurd (o.0 n q (e ∙ ap some (ground arith)))
    | inr apart ↦ ground (arith, f n, h.0 k n q)
  ]),
  AreBorn-added c msg xs maps maps' e f o.1 h.1,
)

module _ (t : IntervalTree) (mode : TraceMode) (a : Answers) (I : MemoryMap t → Type 0) (E : Type 0)
    (p : Preserves t mode a I E) (execs : All (λ x. x.0 ≡ wait_exec → E) a.exit_traps) where
  AllMaps-map_at :
      (i : ℕ) (maps : Maps t) (m : MemoryMap t) → AllMaps I maps → map_at t maps i ≡ some m → I m
  AllMaps-map_at i [] m h e = cc
  AllMaps-map_at zero (x ∷ xs) m h e = subst I (some-injective _ _ e) h.0
  AllMaps-map_at (suc i) (x ∷ xs) m h e = AllMaps-map_at i xs m h.1 e

  on_entry_event-Kept :
      (i : ℕ) (maps : Maps t) (pending : List ℕ) (entry : Option EventInfo)
      (found : Option (MemoryMap t))
      → entry_event mode a ≡ entry
      → map_at t maps i ≡ found
      → Sound t mode a I E maps
      → i < length maps
      → AreBorn a.exit_traps maps
      → Kept t mode a I E (on_entry_event t a i maps pending entry found).1
  on_entry_event-Kept i maps pending none found e f h l b = tt
  on_entry_event-Kept i maps pending (some event) none e f h l b = tt
  on_entry_event-Kept i maps pending (some event) (some m) e f h l b =
      on_event-Kept t mode a I E p i event maps pending m e h l
        (AllMaps-map_at i maps m (Sound.each h) f) b execs

  on_syscall-Kept :
      (i : ℕ) (maps : Maps t) (pending : List ℕ)
      → Sound t mode a I E maps
      → i < length maps
      → AreBorn a.exit_traps maps
      → Kept t mode a I E (on_syscall t mode a i maps pending).1
  unfolding on_syscall
  on_syscall-Kept i maps pending h l b =
      on_entry_event-Kept i maps pending (entry_event mode a) (map_at t maps i) refl refl h l b

  forked-Kept :
      (i c : ℕ) (maps : Maps t) (pending : List ℕ) (found : Option (MemoryMap t))
      → map_at t maps i ≡ found
      → a.event_msg ≡ some c
      → Sound t mode a I E maps
      → i < length maps
      → GivesNew a maps
      → Kept t mode a I E (on_syscall t mode a i (forked t c found maps) pending).1
  unfolding forked for_process_new
  forked-Kept i c maps pending none f e h l n = on_syscall-Kept i maps pending h l n.born
  forked-Kept i c maps pending (some m) f e h l n =
      let child = for_process_new m c in
      let more : (d : ℕ)
          → thread_count d (add_map child maps) ≡ thread_count d maps + (if c == d then 1 else 0) =
        λ d. omega (
          arith,
          total-append (λ (x : MapForProcess (MemoryMap t)). occurrences d x.pids) maps
              (child ∷ []),
        ) in
      on_syscall-Kept i (add_map child maps) pending
        (record {
          tracked = add_map-IsTracked c m maps (Sound.tracked h) (n.arrived c e);
          each =
              All-append (λ x. I x.map) maps (child ∷ []) (Sound.each h)
                (AllMaps-map_at i maps m (Sound.each h) f, tt);
        })
        (omega (arith, length-append maps (child ∷ [])))
        (AreBorn-added c a.event_msg a.exit_traps maps (add_map child maps) e more n.other n.born)

  on_trap-Kept :
      (i : ℕ) (maps : Maps t) (pending : List ℕ) (trap : WaitTrapResult) (msg : Option ℕ)
      → a.event_msg ≡ msg
      → (trap ≡ wait_exec → E)
      → Sound t mode a I E maps
      → i < length maps
      → GivesNew a maps
      → Kept t mode a I E (on_trap t mode a i maps pending trap msg).1
  unfolding on_trap
  on_trap-Kept i maps pending wait_cont msg e x h l n = h
  on_trap-Kept i maps pending wait_stop msg e x h l n = h
  on_trap-Kept i maps pending wait_sigchld msg e x h l n = h
  on_trap-Kept i maps pending wait_sigsegv msg e x h l n = h
  on_trap-Kept i maps pending wait_group_stop msg e x h l n = h
  on_trap-Kept i maps pending wait_syscall msg e x h l n = on_syscall-Kept i maps pending h l n.born
  on_trap-Kept i maps pending wait_error msg e x h l n = tt
  on_trap-Kept i maps pending wait_ptrace_clone none e x h l n = tt
  on_trap-Kept i maps pending wait_ptrace_clone (some c) e x h l n =
      on_syscall-Kept i (add_pid c i maps) (adopt c pending).1
        (Sound-add_pid t mode a I E c i maps l (n.arrived c e) h)
        (omega (arith, length-add_pid c i maps))
        (AreBorn-added c a.event_msg a.exit_traps maps (add_pid c i maps) e
          (λ d. add_pid-count d c i maps l) n.other n.born)
  on_trap-Kept i maps pending wait_ptrace_fork none e x h l n = tt
  on_trap-Kept i maps pending wait_ptrace_fork (some c) e x h l n =
      forked-Kept i c maps (adopt c pending).1 (map_at t maps i) refl e h l n
  on_trap-Kept i maps pending wait_exec msg e x h l n =
      let cleared = update_at (clear t) i maps in
      on_syscall-Kept i cleared pending
        (Sound-update_at t mode a I E (clear t) i maps (λ m k. p.clears m (x refl) k) h)
        (omega (arith, length-update_at (clear t) i maps))
        (AreBorn-same a.exit_traps maps cleared (λ d. update_at-count (clear t) d i maps) n.born)
  on_trap-Kept i maps pending wait_signaled msg e x h l n = tt
  on_trap-Kept i maps pending wait_exited msg e x h l n =
      after_exit-Kept t mode a I E a.waited_pid maps pending h

  waited-Kept :
      (maps : Maps t) (pending : List ℕ) (found : Option ℕ)
      → find_memory_map a.waited_pid maps ≡ found
      → (a.trap ≡ wait_exec → E)
      → Sound t mode a I E maps
      → GivesNew a maps
      → Kept t mode a I E (on_waited t mode a maps pending found).1
  waited-Kept maps pending none f x h n = elim (Bool-cases (may_be_new a.trap)) [
    | inl new ↦ rw new h
    | inr old ↦ rw old tt
  ]
  waited-Kept maps pending (some i) f x h n = elim (find_memory_map-cases a.waited_pid maps) [
    | inl (e, _) ↦ cc
    | inr (j, e, l, _) ↦
        let same : j ≡ i = some-injective j i (sym e ∙ f) in
        on_trap-Kept i maps pending a.trap a.event_msg refl x h (omega arith) n
  ]

  pub round-Kept :
      (maps : Maps t) (pending : List ℕ)
      → (a.trap ≡ wait_exec → E)
      → Sound t mode a I E maps
      → GivesNew a maps
      → Kept t mode a I E (round t mode a maps pending).1
  unfolding round
  round-Kept maps pending x h n =
      waited-Kept maps pending (find_memory_map a.waited_pid maps) refl x h n
