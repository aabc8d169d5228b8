-- ===== src/Tracer/Loop/Runs.antt =====
-- Any number of rounds of the loop: the processes stay tracked, and the memory of a compartment
-- stays its own in every process.
use ia2_phase.Tracer.Processes.{MapForProcess}
use ia2_phase.MemoryMap.{IntervalTree}
use ia2_phase.MemoryMap.Operations.{MemoryMap, mark_init_finished}
use ia2_phase.Tracer.{EventInfo, exec}
use ia2_phase.Tracer.Syscalls.{TraceMode, with_result}
use ia2_phase.Tracer.Processes.Threads.{IsTracked}
use ia2_phase.Tracer.Processes.Maps.{AllMaps}
use ia2_phase.Tracer.Isolation.Events.{event_pkey, EventFits, IsResult}
use ia2_phase.Tracer.Isolation.Owning.{Owns, Step, Step-Owns}
use ia2_phase.Tracer.Loop.Traps.{wait_exec, WaitTrapResult}
use ia2_phase.Tracer.Loop.Rounds.{Answers, Outcome, Maps, again, entry_event, round}
use ia2_phase.Tracer.Loop.Kept.{Preserves, Sound, Kept}
use ia2_phase.Tracer.Loop.Passes.{GivesNew, round-Kept}
use ia2_phase.Base.{
  ℕ, List, some, ◌≡◌, ◌≢◌, true, false, refl, All, leb, ap, inl, subst, ◌∷◌, inr, Bool, Option, [],
  sym, ◌∙◌,
}

all_may_exec :
    (traps : List (WaitTrapResult × Option ℕ)) → All (λ x. x.0 ≡ wait_exec → Unit {0}) traps
all_may_exec [] = tt
all_may_exec (x ∷ xs) = ((λ _. tt), all_may_exec xs)

all_unit : {A : Type 0} (maps : List (MapForProcess A)) → AllMaps (λ _. Unit {0}) maps
all_unit [] = tt
all_unit (m ∷ ms) = (tt, all_unit ms)

-- A call of a compartment other than `own` that is not an exec, with its result, whose range is not
-- empty and does not wrap.
abbrev pub IsOthers : ℕ → EventInfo → ℕ → Type 0
IsOthers own event rax =
    (event_pkey event ≢ own)
    × (event ≢ exec)
    × EventFits (with_result rax event)
    × IsResult rax event

-- The answers of a round in which only compartments other than `own` act, and none calls exec.
pub record Foreign (mode : TraceMode) (own : ℕ) (a : Answers) : Type 0 where
  pub no_exec : a.trap ≢ wait_exec
  pub no_execs : All (λ x. x.0 ≢ wait_exec) a.exit_traps
  pub acts :
      (event : EventInfo) (rax : ℕ)
      → entry_event mode a ≡ some event
      → a.exit_rax ≡ some rax
      → leb 9223372036854775808 rax ≡ false
      → IsOthers own event rax

module _ (t : IntervalTree) (mode : TraceMode) where
  Kept-again :
      (a : Answers) (I : MemoryMap t → Type 0) (E : Type 0) (o : Outcome t) (maps : Maps t)
      (pending : List ℕ)
      → o ≡ again maps pending
      → Kept t mode a I E o
      → Sound t mode a I E maps
  Kept-again a I E o maps pending e k = subst (Kept t mode a I E) e k

  -- If the processes are tracked (each map has a thread, no thread is in two places) and a new thread
  -- has a number that no known thread has, then the processes are tracked after every round that goes
  -- on, whatever the trap: system calls, clones, forks, execs and exits.
  pub round-IsTracked :
      (a : Answers) (maps : Maps t) (pending : List ℕ) (maps' : Maps t) (pending' : List ℕ)
      → IsTracked maps
      → GivesNew a maps
      → (round t mode a maps pending).1 ≡ again maps' pending'
      → IsTracked maps'
  round-IsTracked a maps pending maps' pending' h n e = Sound.tracked (
      Kept-again a (λ _. Unit {0}) (Unit {0}) _ maps' pending' e
        (round-Kept t mode a (λ _. Unit {0}) (Unit {0})
          (record {
            clears = λ m w k. tt;
            marks = λ m u k e. tt;
            updates = λ ev r m u e f l c k d. tt;
          })
          (all_may_exec a.exit_traps) maps pending (λ _. tt)
          (record { tracked = h; each = all_unit maps }) n))

  mark_once :
      (own addr : ℕ) (m u : MemoryMap t)
      → Owns t own addr m
      → mark_init_finished t m ≡ (true, u)
      → ⊥
  unfolding mark_init_finished
  mark_once own addr m u o e =
      let done = o.finished in
      let same : mark_init_finished t m ≡ (false, m) = rw (done, mark_init_finished) refl in
      ne (ap (λ (r : Bool × MemoryMap t). r.0) (sym same ∙ e))
    where
      ne : false ≡ true → ⊥
      ne h = cc

  keeps_own :
      (a : Answers) (own addr : ℕ)
      → own ≢ 0
      → Foreign mode own a
      → Preserves t mode a (Owns t own addr) ⊥
  keeps_own a own addr z f = record {
    clears = λ m w k. absurd w;
    marks = λ m u k e. absurd (mark_once own addr m u k e);
    updates = λ event rax m u e r ok c k done.
        let (other, x, fits, res) = f.acts event rax e r ok in
        elim c [
          | inl allowed ↦
              Step-Owns t addr z (Step.completed event rax other x fits res allowed done) k
          | inr (inl (m0, k0, e0)) ↦ absurd (mark_once own addr m0 m k0 e0)
          | inr (inr w) ↦ absurd w
        ];
  }

  -- The loop, from one round to a later one, while only compartments other than `own` act.
  pub data Rounds (own : ℕ) (maps : Maps t) (pending : List ℕ) : Maps t → List ℕ → Type 0 where
    start : Rounds own maps pending maps pending
    next :
        {us ws : Maps t} {ps qs : List ℕ} (a : Answers)
        → Rounds own maps pending us ps
        → GivesNew a us
        → Foreign mode own a
        → (round t mode a us ps).1 ≡ again ws qs
        → Rounds own maps pending ws qs

  -- If the processes are tracked and memory belongs to a compartment other than 0 in the map of each,
  -- after initialization, then both still hold after any number of rounds of the loop in which only
  -- other compartments make system calls, none calls exec, and a new thread has a new number: clones
  -- and forks, exits, and calls that are refused, that fail or that are permitted. The ranges of a
  -- call that succeeds are not empty and do not wrap, and a fixed mapping is where it was asked for.
  pub Rounds-Owns :
      {own : ℕ} {maps : Maps t} {pending : List ℕ} {maps' : Maps t} {pending' : List ℕ} (addr : ℕ)
      → own ≢ 0
      → Rounds own maps pending maps' pending'
      → IsTracked maps
      → AllMaps (Owns t own addr) maps
      → IsTracked maps' × AllMaps (Owns t own addr) maps'
  Rounds-Owns addr z start h o = (h, o)
  Rounds-Owns {own} addr z (next {us} {ws} {ps} {qs} a r n f e) h o =
      let (h', o') = Rounds-Owns addr z r h o in
      let sound = Kept-again a (Owns t own addr) ⊥ _ ws qs e (
        round-Kept t mode a (Owns t own addr) ⊥ (keeps_own a own addr z f) f.no_execs us ps
          (λ w. f.no_exec w) (record { tracked = h'; each = o' }) n) in
      (Sound.tracked sound, Sound.each sound)
