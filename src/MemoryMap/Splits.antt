-- ===== src/MemoryMap/Splits.antt =====
-- `split_out_region`: the regions that overlap a range leave the tree, and their parts outside the
-- range come back.
pub mod Removal
pub mod Rests
pub mod Clips
pub mod Whole
