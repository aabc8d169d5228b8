-- ===== src/Tests/Maps/Rounds.antt =====
-- The tracer at concrete system calls.
use ia2_phase.MemoryMap.Views.{state_at}
use ia2_phase.MemoryMap.{delete, keep}
use ia2_phase.MemoryMap.Operations.{MemoryMap, all_regions}
use ia2_phase.MemoryMap.Splits.Whole.{lookup}
use ia2_phase.Tests.Maps.Regions.{list_tree, two_owners, cell, state_of, span}
use ia2_phase.Pkru.{pkru_value, mixed_pkru_value}
use ia2_phase.Tracer.{EventInfo, munmap, MprotectInfo, exec, has_flag, prot_write}
use ia2_phase.Tracer.Policy.{is_op_permitted, mprotect_permitted}
use ia2_phase.Tracer.Policy.Sealed.{mprotect_permitted-sealed}
use ia2_phase.Tracer.Updates.{update_memory_map}
use ia2_phase.Tracer.Keys.{pkey_for_pkru, pkey_for_pkru_iff, pkey_for_pkru-mixed, pkey_invalid}
use ia2_phase.Tracer.Syscalls.{
  TraceMode, with_result, event_marks_init_finished, event_is_request_proc_self_maps,
}
use ia2_phase.Tracer.Isolation.Events.{event-Isolated}
use ia2_phase.Tracer.Isolation.Steps.{Isolated}
use ia2_phase.Tracer.Isolation.Owning.{Owns}
use ia2_phase.Tracer.Processes.{find_memory_map, handle_thread_exit}
use ia2_phase.Tracer.Processes.Threads.{IsTracked, Exited, handle_thread_exit-Exited}
use ia2_phase.Tracer.Loop.Traps.{wait_syscall}
use ia2_phase.Tracer.Loop.Rounds.{
  run_syscall, on_trap, on_event, syscall_exit, Answers, round, entry_event, resume, return_eperm,
  again, Maps, syscall_result,
}
use ia2_phase.Tracer.Loop.Permits.{IsMeant, round-Permitted, round-foreign}
use ia2_phase.Base.{
  ℕ, some, none, [], ◌∷◌, ◌==◌, ◌≡◌, ◌≢◌, ◌↔◌, true, false, arith, refl, Returns, if◌then◌else◌,
  ◌+◌, ◌≤◌, All,
}

pkey_for_pkru_iff_example : (pkey_for_pkru 0xfffffff0 ≡ 1) ↔ (0xfffffff0 ≡ pkru_value 1)
pkey_for_pkru_iff_example = pkey_for_pkru_iff 0xfffffff0 1 (omega arith) (omega arith)

pkey_for_pkru-mixed_example : pkey_for_pkru (mixed_pkru_value 1 2) ≡ pkey_invalid
pkey_for_pkru-mixed_example =
    pkey_for_pkru-mixed 1 2 (omega arith) (omega arith) (omega arith) (omega arith) (omega arith)

abbrev pub unmapping : ℕ → ℕ → EventInfo
unmapping start pkey = munmap (record { range = span start 0x1000; pkey = pkey })

pub not_exec : (start pkey : ℕ) → unmapping start pkey ≢ exec
not_exec start pkey e = cc

own_page : is_op_permitted list_tree two_owners (unmapping 0x2000 1) ≡ some true
unfolding is_op_permitted all_regions keep
own_page = refl

event-Isolated_example :
    Returns
      (update_memory_map list_tree (with_result 0 (unmapping 0x2000 1)) two_owners)
      (λ result. Isolated list_tree 1 two_owners result.1)
unfolding with_result
event-Isolated_example =
    event-Isolated list_tree two_owners (unmapping 0x2000 1) 0 (omega arith) refl
      (not_exec 0x2000 1) (omega arith) tt tt own_page

abbrev pub one_page_less : MemoryMap list_tree
one_page_less = record two_owners { regions = cell 0x1000 0x2000 1 ∷ cell 0x3000 0x5000 2 ∷ [] }

second_page : lookup list_tree two_owners 0x3008 ≡ some (state_of 2)
unfolding state_at
second_page = refl

pub owns : Owns list_tree 2 0x3008 two_owners
owns = record {
  valid = omega arith;
  finished = refl;
  state = state_of 2;
  mapped = second_page;
  owner = refl;
}

abbrev reading : MprotectInfo
reading = record { range = span 0x2000 0x1000; prot = 1; pkey = 2 }

reading_permitted : mprotect_permitted list_tree two_owners reading ≡ some true
unfolding mprotect_permitted keep all_regions
reading_permitted = refl

first_page : lookup list_tree two_owners 0x2008 ≡ some (state_of 1)
unfolding state_at
first_page = refl

read_only : has_flag 1 prot_write ≡ false
unfolding has_flag
read_only = refl

mprotect_permitted-sealed_example : (state_of 1).prot ≡ reading.prot
mprotect_permitted-sealed_example =
    mprotect_permitted-sealed list_tree two_owners reading 0x2008 (state_of 1) (omega arith) refl
      (omega arith) (omega arith) reading_permitted refl first_page refl read_only

-- Threads 7 and 8 in one process, thread 9 in another.
abbrev pub processes : Maps list_tree
processes =
    record { map = two_owners; pids = 7 ∷ 8 ∷ [] } ∷ record { map = two_owners; pids = 9 ∷ [] } ∷ []

no_repeat :
    (a : ℕ) → (if 7 == a then 1 else 0) + (if 8 == a then 1 else 0) + (if 9 == a then 1 else 0) ≤ 1
no_repeat a = ground arith

pub tracked : IsTracked processes
tracked = record { used = (λ e. cc, (λ e. cc, tt)); once = λ a. omega (arith, no_repeat a) }

handle_thread_exit-Exited_example : Exited 9 processes (handle_thread_exit 9 processes)
handle_thread_exit-Exited_example = handle_thread_exit-Exited 9 processes tracked (omega arith)

-- Compartment 1 unmaps a page.
abbrev pub asking : ℕ → Answers
asking start = record {
  waited_pid = 8;
  trap = wait_syscall;
  event_msg = none;
  entry_regs =
      some (record { orig_rax = 11; rax = 0; rdi = start; rsi = 0x1000; rdx = 0; r10 = 0; r8 = 0 });
  pkru = some 0xfffffff0;
  init_trap = wait_syscall;
  exit_traps = (wait_syscall, none) ∷ [];
  exit_rax = some 0;
  continued = true;
}

asks : entry_event TraceMode.seccomp (asking 0x3000) ≡ some (unmapping 0x3000 1)
unfolding entry_event
asks = refl

known : find_memory_map 8 processes ≡ some 0
unfolding find_memory_map
known = refl

round-foreign_example :
    round list_tree TraceMode.seccomp (asking 0x3000) processes []
    ≡ (return_eperm 8 ∷ resume 8 0 ∷ [], again processes [])
unfolding event_marks_init_finished event_is_request_proc_self_maps
round-foreign_example =
    round-foreign list_tree TraceMode.seccomp (asking 0x3000) processes [] 0 0x3008 two_owners
      (state_of 2) (unmapping 0x3000 1) (span 0x3000 0x1000) refl known refl (omega arith)
      second_page asks refl refl refl (omega arith) refl (omega arith)

-- The call is run, and the process goes on.
runs :
    (round list_tree TraceMode.seccomp (asking 0x2000) processes []).0
    ≡ run_syscall 8 ∷ resume 8 0 ∷ []
unfolding round keep on_trap on_event syscall_exit syscall_result update_memory_map delete
runs = refl

round-Permitted_example :
    All
      (IsMeant list_tree TraceMode.seccomp (asking 0x2000) processes [])
      (round list_tree TraceMode.seccomp (asking 0x2000) processes []).0
round-Permitted_example = round-Permitted list_tree TraceMode.seccomp (asking 0x2000) processes []
