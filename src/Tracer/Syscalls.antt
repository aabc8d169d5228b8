-- ===== src/Tracer/Syscalls.antt =====
-- runtime/tracer/track_memory_map.c: interpret_syscall, update_event_with_result and the two
-- signals that a traced program gives, on x86-64.
use ia2_phase.MemoryMap.{Range}
use ia2_phase.Tracer.{
  EventInfo, MmapEvent, event_from_syscall, mmap, munmap, mremap, madvise, mprotect, pkey_mprotect,
  clone, exec, exit, no_event, event_mmap, event_munmap, event_mremap, event_madvise,
  event_mprotect, event_pkey_mprotect, event_clone, event_exec, event_exit, event_none, has_flag,
  map_fixed, mremap_fixed,
}
use ia2_phase.Base.{
  ℕ, Bool, Option, some, none, if◌then◌else◌, ◌==◌, ◌&&◌, true, false, u32, leb, ◌%◌,
}

-- The fields of `struct user_regs_struct` that the tracer reads.
pub record UserRegs : Type 0 where
  pub orig_rax : ℕ
  pub rax : ℕ
  pub rdi : ℕ
  pub rsi : ℕ
  pub rdx : ℕ
  pub r10 : ℕ
  pub r8 : ℕ

pub data TraceMode : Type 0 where
  seccomp ptrace_syscall : TraceMode

abbrev span : ℕ → ℕ → Range
span start len = record { start = start; len = len }

abbrev read_args : MmapEvent → ℕ → UserRegs → EventInfo
read_args event_mmap pkey r = mmap (record {
  range = span r.rdi r.rsi;
  prot = u32 r.rdx;
  flags = u32 r.r10;
  fildes = u32 r.r8;
  pkey = pkey;
})
read_args event_munmap pkey r = munmap (record { range = span r.rdi r.rsi; pkey = pkey })
read_args event_mremap pkey r = mremap (record {
  old_range = span r.rdi r.rsi;
  new_range = span (if has_flag (u32 r.r10) mremap_fixed then r.r8 else r.rdi) r.rdx;
  flags = u32 r.r10;
  pkey = pkey;
})
read_args event_madvise pkey r =
    madvise (record { range = span r.rdi r.rsi; advice = u32 r.rdx; pkey = pkey })
read_args event_mprotect pkey r =
    mprotect (record { range = span r.rdi r.rsi; prot = u32 r.rdx; pkey = pkey })
read_args event_pkey_mprotect pkey r = pkey_mprotect (record {
  range = span r.rdi r.rsi;
  prot = u32 r.rdx;
  new_owner_pkey = r.r10 % 256;
  pkey = pkey;
})
read_args event_clone pkey r = clone
read_args event_exec pkey r = exec
read_args event_exit pkey r = exit
read_args event_none pkey r = no_event

abbrev expected : TraceMode → MmapEvent → Bool
expected seccomp event_none = false
expected seccomp event = true
expected ptrace_syscall event = true

-- `none` where the call is not one that the seccomp filter stops at.
unfoldable pub interpret_syscall : UserRegs → ℕ → TraceMode → Option EventInfo
unfolding event_from_syscall has_flag
interpret_syscall regs pkey mode =
    let event = event_from_syscall regs.orig_rax in
    if expected mode event then some (read_args event pkey regs) else none

-- Where the mapping really is.
unfoldable pub with_result : ℕ → EventInfo → EventInfo
with_result retval (mmap info) = mmap (record info { range = record info.range { start = retval } })
with_result retval (mremap info) =
    mremap (record info { new_range = record info.new_range { start = retval } })
with_result retval event = event

-- `none` where the system call failed.
unfoldable pub update_event_with_result : ℕ → EventInfo → Option EventInfo
unfolding with_result
update_event_with_result retval event =
    if leb 9223372036854775808 retval then none else some (with_result retval event)

unfoldable pub event_marks_init_finished : EventInfo → Bool
unfolding has_flag
event_marks_init_finished (mmap info) =
    info.range.start == 0x1a21face1a21face && has_flag info.flags map_fixed
event_marks_init_finished event = false

unfoldable pub event_is_request_proc_self_maps : EventInfo → Bool
event_is_request_proc_self_maps (madvise info) = info.advice == 0x1a25e1f5
event_is_request_proc_self_maps event = false
