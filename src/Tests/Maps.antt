-- ===== src/Tests/Maps.antt =====
-- Tests of the memory map and of the tracer, with a sorted list for the interval tree.
pub mod Regions
pub mod Rounds
pub mod Loops
