-- ===== src/Tests.antt =====
-- Tests of the definitions, and the theorems applied to concrete wrappers.
pub mod Data
pub mod Slots
pub mod Classification
pub mod Startup
pub mod Booting
pub mod Pieces
pub mod Gates
pub mod Interning
pub mod Maps
