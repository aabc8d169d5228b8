-- ===== src/Lib.antt =====
-- The call gates of IA2, the compartments of a process that are kept apart by protection keys. The
-- rewriter (tools/rewriter) reads C code, determines for every function that another compartment
-- calls where the C ABI puts its parameters and results, and writes an assembly wrapper, the call
-- gate, that saves the caller's registers, switches from the caller's stack to the target's,
-- copies stack arguments and results in memory, clears the registers that carry no argument or
-- result, and sets PKRU, the register of access rights, to the target's and then back to the
-- caller's value. A tracer (runtime/tracer) watches the system calls of the process and refuses
-- those that would take away or open the memory of another compartment. When the process starts,
-- the runtime (runtime/libia2) gives the memory of each compartment's libraries its protection
-- key. This library models the generator of the gates and the machine code that it writes, the
-- protection at start-up, and the tracer with its memory map, on x86-64.
--
-- - Base: helpers on tests, lists and code that may stop. `none` stands for a failed assert, a
--   report_fatal_error or an index out of range.
-- - Registers, Abi: the registers and their orders (tools/rewriter/GenCallAsm.cpp), the class
--   ArgLocation and the signatures (tools/rewriter/CAbi.h). Methods that change the object return
--   the changed one; registers are data, not strings, so `as_str` is an Option and `none` is the
--   text <stack>.
-- - MemoryMap, with Operations: the memory map of the tracer
--   (runtime/tracer/memory-map/src/lib.rs). Its interval tree is a third-party crate: the record
--   IntervalTree has its operations and the laws that are relied on, those of a map in ascending
--   order whose `range` yields the overlapping entries; Tests gives a sorted list as an instance.
--   Views, Inserts, Splits (with Removal, Rests, Clips and Whole), Adds, Protects and Checks (with
--   Holes) read a map as the state of every address.
-- - Tracer, with Policy, Updates, Keys and Syscalls: the events (mmap_event.h, mmap_event.c),
--   is_op_permitted, update_memory_map, pkey_for_pkru, interpret_syscall and
--   update_event_with_result (track_memory_map.c); Policy.Sealed, Policy.Foreign and Isolation (with
--   Steps, Events and Owning) state what they promise.
-- - Tracer.Initial, with Loaded: the memory map at the start, from the lines of /proc/<pid>/maps
--   as sscanf reads them. Tracer.Processes, with Removal, Threads, Arrivals and Maps: the lists of
--   traced processes and threads. Tracer.Loop, with Traps, Rounds, Guards, Requests, Permits, Kept,
--   Calls, Passes and Runs: wait_for_next_trap and one pass through the loop of track_memory_map, as
--   a function of the kernel's answers to the requests that the code makes; what it asks of the
--   kernel is a list of actions.
-- - Runtime, with Keys, Names (with Entries), Pages (with Regions and Protected), Tls (with
--   Covered) and Start (with Tags, Setup and Stacks): what the runtime protects at start-up
--   (runtime/libia2/ia2.c and init.c): in_loaded_segment, in_extra_libraries, protect_pages,
--   protect_tls_pages, ia2_get_compartment, ia2_setup_compartment and ia2_start. The calls of
--   ia2_mprotect_with_tag are a list, the kernel's answers a function; `none` is the end of the
--   process. The loop of protect_pages over a segment runs on fuel, one for each byte, which is at
--   least the number of passes, since each moves the start up.
-- - Params, with Progress, Orders, Assignment, Located, Layout, Fit, Placement and Spills:
--   allocate_param_locations, for both architectures. The local variables of the loop are the record
--   Slots.
-- - ReturnLocs, with Laws and Located: allocate_return_locations, whose switch falls through from
--   the 16-byte integer to the vector case.
-- - DetermineAbi, with Slots, Api, Resolved and Signature: the slots that the arguments and the
--   result of a function take, from clang's classification of them, and the signature of a function
--   with the TypeIds of its parameters (tools/rewriter/DetermineAbi.cpp). What clang and LLVM answer
--   (the kind of an argument, the type it is coerced to, sizes and names) is data that the functions
--   are given.
-- - Types, with Interner: TypeInfo and TypeInfoInterner (tools/rewriter/TypeOps.h and
--   TypeOps.cpp). The unordered_map is a list of pairs.
-- - Asm, with Machine, Memory and States: the lines that the generator writes, as data, and what
--   they do to registers, memory, thread-local cells and PKRU.
-- - Memcpy, with Copies: emit_memcpy.
-- - Pkru, with Rights and Effects: the code that sets PKRU, and which keys a value gives access
--   to.
-- - Gate, with Frame, FrameLaws, Items, Saves, Scrub, ScrubLaws, Arguments, Pushes, StackArgs,
--   Stacks, Results and MemoryReturns: the pieces of a gate (emit_prologue, emit_epilogue,
--   emit_save_args, emit_switch_stacks, emit_scrub_regs, emit_copy_args, emit_copy_stack_returns and
--   their helpers), and the routine __libia2_scrub_registers
--   (runtime/libia2/include/scrub_registers.h).
-- - Wrapper, with Sizes, Alignment, Reserve, Passing, Entry, Plain, Call, Leave, Return, Registry
--   and Checked: emit_asm_wrapper, its sizes, the type registry checks and the condition functions
--   (tools/rewriter/Context.h).
-- - Tests: evaluations, and every theorem at a concrete input.
--
-- The code appended to the AsmWriter is a list of instructions; comment lines, the quotes and the
-- line ends are left out. The machine follows the architecture manual: memory is a function from
-- addresses to bytes, general registers hold 8 bytes, vector registers the 16 bytes that the gate
-- saves, sums of addresses wrap at 2^64. The thread-local cells ia2_stackptr_N are apart from
-- other memory. A call goes to code that the environment gives; a theorem about a call takes what
-- it relies on as a hypothesis about the environment. ASSERT_PKRU is that of a debug build
-- (runtime/libia2/include/ia2.h). The AArch64 branches of the emitters are not modelled.
--
-- In the tracer `none` is a panic or an exit. A pointer to the map of a process is its index. The
-- tracer's theorems are about ranges that are not empty and do not wrap.
--
-- A size_t wraps at 2^64 and an unsigned at 2^32, written out as u64 and u32; only the counter and
-- the number of bytes of emit_memcpy, an int and an unsigned, are not bounded, which makes a
-- difference from 2^31 bytes on. A remainder by an alignment of 0 has no value, so alloc_memory
-- returns `none` there. Loops over offsets run on fuel: memcpy_loop and push_loop take the number
-- of bytes as fuel, which is at least the number of rounds, since each round moves 8 bytes; their
-- theorems show that no byte is left over. search_libraries takes the length of the list of names,
-- of which each pass uses up a character; its theorem shows that no entry is missed.
-- to_string_fuel takes the number and one more, which is more than its digits.
--
-- Not modelled: clang's own classification of types, the passes over the syntax tree
-- (tools/rewriter/SourceRewriter.cpp), the text of comments and error messages, the vendored
-- command line parser, the rest of the runtime (in runtime/libia2 threads.c, the entry and exit
-- code and the printing of memory maps; runtime/type-registry; and in runtime/tracer the seccomp
-- filter and the path restrictions), which is C and Rust code around system calls, and the
-- vendored allocator.
pub mod Base
pub mod Registers
pub mod Types
pub mod Abi
pub mod Runtime
pub mod MemoryMap
pub mod Tracer
pub mod Params
pub mod ReturnLocs
pub mod DetermineAbi
pub mod Asm
pub mod Memcpy
pub mod Pkru
pub mod Gate
pub mod Wrapper
pub mod Tests
