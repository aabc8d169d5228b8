-- ===== src/Gate.antt =====
-- tools/rewriter/GenCallAsm.cpp for x86-64: the pieces of a call gate around the call itself.
pub mod Frame
pub mod Items
pub mod Saves
pub mod FrameLaws
pub mod Scrub
pub mod ScrubLaws
pub mod Arguments
pub mod Pushes
pub mod StackArgs
pub mod Stacks
pub mod Results
pub mod MemoryReturns
