-- ===== src/Tracer/Isolation.antt =====
-- What the policy and the updates together promise: an event of one compartment leaves the memory
-- of the others alone.
pub mod Steps
pub mod Events
pub mod Owning
