-- ===== src/Tracer.antt =====
-- runtime/tracer: the program that watches the memory system calls of the compartments
-- (mmap_event.h, mmap_event.c: the events and the system calls that they stand for, on x86-64).
pub mod Initial
pub mod Policy
pub mod Updates
pub mod Keys
pub mod Syscalls
pub mod Processes
pub mod Loop
pub mod Isolation
use ia2_phase.Base.{
  ℕ, Bool, List, Option, none, some, [], ◌∷◌, ◌==◌, ◌||◌, not, if◌then◌else◌, bit_or,
}
use Prim.Native.Nat.{bit_and}
use ia2_phase.MemoryMap.{Range}

pub record MmapInfo : Type 0 where
  pub range : Range
  pub prot : ℕ
  pub flags : ℕ
  pub fildes : ℕ
  pub pkey : ℕ

pub record MunmapInfo : Type 0 where
  pub range : Range
  pub pkey : ℕ

pub record MremapInfo : Type 0 where
  pub old_range : Range
  pub new_range : Range
  pub flags : ℕ
  pub pkey : ℕ

pub record MadviseInfo : Type 0 where
  pub range : Range
  pub advice : ℕ
  pub pkey : ℕ

pub record MprotectInfo : Type 0 where
  pub range : Range
  pub prot : ℕ
  pub pkey : ℕ

pub record PkeyMprotectInfo : Type 0 where
  pub range : Range
  pub prot : ℕ
  pub new_owner_pkey : ℕ
  pub pkey : ℕ

-- `enum mmap_event`.
pub data MmapEvent : Type 0 where
  event_mmap event_munmap event_mremap event_madvise event_mprotect event_pkey_mprotect : MmapEvent
  event_clone event_exec event_exit event_none : MmapEvent

-- The event with the member of `union event_info` that it uses.
pub data EventInfo : Type 0 where
  mmap : MmapInfo → EventInfo
  munmap : MunmapInfo → EventInfo
  mremap : MremapInfo → EventInfo
  madvise : MadviseInfo → EventInfo
  mprotect : MprotectInfo → EventInfo
  pkey_mprotect : PkeyMprotectInfo → EventInfo
  clone exec exit no_event : EventInfo

unfoldable pub event_target_range : EventInfo → Option Range
event_target_range (mmap info) = some info.range
event_target_range (munmap info) = some info.range
event_target_range (mremap info) = some info.old_range
event_target_range (madvise info) = some info.range
event_target_range (mprotect info) = some info.range
event_target_range (pkey_mprotect info) = some info.range
event_target_range clone = none
event_target_range exec = none
event_target_range exit = none
event_target_range no_event = none

-- The numbers of asm/unistd_64.h.
unfoldable pub event_from_syscall : ℕ → MmapEvent
event_from_syscall nr =
    if nr == 9
    then event_mmap
    else if nr == 11
    then event_munmap
    else if nr == 25
    then event_mremap
    else if nr == 28
    then event_madvise
    else if nr == 10
    then event_mprotect
    else if nr == 329
    then event_pkey_mprotect
    else if nr == 61 || nr == 56 || nr == 435
    then event_clone
    else if nr == 59 || nr == 322
    then event_exec
    else if nr == 60
    then event_exit
    else event_none

-- A flag of the Linux headers in a word of flags.
unfoldable pub has_flag : ℕ → ℕ → Bool
has_flag flags flag = not (bit_and flags flag == 0)

abbrev pub map_fixed : ℕ
map_fixed = 0x10

abbrev pub map_stack : ℕ
map_stack = 0x20000

abbrev pub mremap_fixed : ℕ
mremap_fixed = 2

abbrev pub mremap_dontunmap : ℕ
mremap_dontunmap = 4

abbrev pub prot_write : ℕ
prot_write = 2

abbrev pub prot_indeterminate : ℕ
prot_indeterminate = 4294967295
