-- ===== src/Tracer/Loop.antt =====
-- runtime/tracer/track_memory_map.c: wait_for_next_trap and the loop of track_memory_map, on x86-64.
-- What the kernel answers to waitpid and ptrace is an argument.
pub mod Traps
pub mod Rounds
pub mod Guards
pub mod Requests
pub mod Kept
pub mod Calls
pub mod Passes
pub mod Permits
pub mod Runs
