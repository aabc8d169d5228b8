-- ===== src/Tests/Maps/Loops.antt =====
-- Rounds of the loop of the tracer at concrete answers.
use ia2_phase.Tracer.{EventInfo, clone}
use ia2_phase.MemoryMap.{keep, put, delete}
use ia2_phase.Tracer.Initial.{MapsEntry, load_initial_memory_map}
use ia2_phase.Tracer.Initial.Loaded.{all_parsed, Loaded, load_initial_memory_map-Loaded}
use ia2_phase.Tests.Maps.Regions.{list_tree, two_owners}
use ia2_phase.Tests.Maps.Rounds.{
  processes, tracked, asking, one_page_less, owns, unmapping, not_exec,
}
use ia2_phase.Tracer.Syscalls.{TraceMode, with_result}
use ia2_phase.Tracer.Processes.Threads.{IsTracked}
use ia2_phase.Tracer.Processes.Maps.{AllMaps}
use ia2_phase.Tracer.Isolation.Owning.{Owns}
use ia2_phase.Tracer.Loop.Traps.{wait_syscall, wait_ptrace_fork}
use ia2_phase.Tracer.Loop.Rounds.{
  Answers, Maps, again, round, on_trap, on_event, syscall_exit, entry_event,
}
use ia2_phase.Tracer.Updates.{update_memory_map}
use ia2_phase.Tracer.Loop.Passes.{GivesNew}
use ia2_phase.Tracer.Loop.Runs.{round-IsTracked, Rounds, Foreign, Rounds-Owns, IsOthers}
use ia2_phase.Base.{
  ℕ, some, none, [], ◌∷◌, ◌≡◌, arith, refl, true, some-injective, leb, false, subst, sym, ◌∙◌, List,
  Returns,
}

-- Thread 8 forks process 10.
abbrev forking : Answers
forking = record {
  waited_pid = 8;
  trap = wait_ptrace_fork;
  event_msg = some 10;
  entry_regs =
      some (record { orig_rax = 56; rax = 0; rdi = 17; rsi = 0; rdx = 0; r10 = 0; r8 = 0 });
  pkru = some 0xfffffff0;
  init_trap = wait_syscall;
  exit_traps = (wait_syscall, none) ∷ [];
  exit_rax = some 10;
  continued = true;
}

abbrev with_child : Maps list_tree
with_child =
    record { map = two_owners; pids = 7 ∷ 8 ∷ [] }
    ∷ record { map = two_owners; pids = 9 ∷ [] }
    ∷ record { map = two_owners; pids = 10 ∷ [] }
    ∷ []

forks : (round list_tree TraceMode.seccomp forking processes []).1 ≡ again with_child []
unfolding round keep put delete on_trap on_event syscall_exit update_memory_map
forks = refl

new_child : GivesNew forking processes
new_child = record {
  arrived = λ c e. let same : 10 ≡ c = some-injective 10 c e in ground (arith);
  born = ((λ k c e. cc), tt);
  other = ((λ c e. cc), tt);
}

round-IsTracked_example : IsTracked with_child
round-IsTracked_example =
    round-IsTracked list_tree TraceMode.seccomp forking processes [] with_child [] tracked new_child
      forks

-- Then it unmaps a page of compartment 1.
abbrev after_unmapping : Maps list_tree
after_unmapping =
    record { map = one_page_less; pids = 7 ∷ 8 ∷ [] }
    ∷ record { map = two_owners; pids = 9 ∷ [] }
    ∷ record { map = two_owners; pids = 10 ∷ [] }
    ∷ []

unmaps :
    (round list_tree TraceMode.seccomp (asking 0x2000) with_child []).1 ≡ again after_unmapping []
unfolding round keep put delete on_trap on_event syscall_exit update_memory_map
unmaps = refl

-- What one call does is all that can happen in the round.
acts_as :
    (own : ℕ) (a : Answers) (event : EventInfo) (rax : ℕ)
    → entry_event TraceMode.seccomp a ≡ some event
    → a.exit_rax ≡ some rax
    → IsOthers own event rax
    → (event' : EventInfo) (rax' : ℕ) → entry_event TraceMode.seccomp a ≡ some event'
    → a.exit_rax ≡ some rax'
    → leb 9223372036854775808 rax' ≡ false
    → IsOthers own event' rax'
acts_as own a event rax e r h event' rax' e' r' l =
    subst (λ x. IsOthers own x rax') (some-injective event event' (sym e ∙ e'))
      (subst (IsOthers own event) (some-injective rax rax' (sym r ∙ r')) h)

clones : entry_event TraceMode.seccomp forking ≡ some clone
unfolding entry_event
clones = refl

forking-Foreign : Foreign TraceMode.seccomp 2 forking
unfolding with_result
forking-Foreign = record {
  no_exec = λ e. cc;
  no_execs = ((λ e. cc), tt);
  acts = acts_as 2 forking clone 10 clones refl (omega arith, (λ e. cc), tt, tt);
}

asks : entry_event TraceMode.seccomp (asking 0x2000) ≡ some (unmapping 0x2000 1)
unfolding entry_event
asks = refl

unmapping-Foreign : Foreign TraceMode.seccomp 2 (asking 0x2000)
unfolding with_result
unmapping-Foreign = record {
  no_exec = λ e. cc;
  no_execs = ((λ e. cc), tt);
  acts =
      acts_as 2 (asking 0x2000) (unmapping 0x2000 1) 0 asks refl
        (omega arith, not_exec 0x2000 1, omega arith, tt);
}

no_child : GivesNew (asking 0x2000) with_child
no_child = record { arrived = λ c e. cc; born = ((λ k c e. cc), tt); other = ((λ c e. cc), tt) }

two_rounds : Rounds list_tree TraceMode.seccomp 2 processes [] after_unmapping []
two_rounds =
    Rounds.next (asking 0x2000) (Rounds.next forking Rounds.start new_child forking-Foreign forks)
      no_child unmapping-Foreign unmaps

Rounds-Owns_example : IsTracked after_unmapping × AllMaps (Owns list_tree 2 0x3008) after_unmapping
Rounds-Owns_example =
    Rounds-Owns list_tree TraceMode.seccomp 0x3008 (omega arith) two_rounds tracked
      (owns, (owns, tt))

-- A page of code and two pages of data behind a gap.
abbrev entries : List MapsEntry
entries =
    record {
      start_addr = 0x1000;
      end_addr = 0x2000;
      read_char = 114;
      write_char = 45;
      exec_char = 120;
    }
    ∷ record {
      start_addr = 0x4000;
      end_addr = 0x6000;
      read_char = 114;
      write_char = 119;
      exec_char = 45;
    }
    ∷ []

load_initial_memory_map-Loaded_example :
    Returns (load_initial_memory_map list_tree (all_parsed entries)) (Loaded list_tree entries)
load_initial_memory_map-Loaded_example =
    load_initial_memory_map-Loaded list_tree entries (omega arith)
