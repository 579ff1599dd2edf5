-- ===== src/Core.antt =====
-- The shared core of the program, crates/kanbei-core: digests, the event envelope and the
-- durability queue.
pub mod Digest
pub mod Envelope
pub mod Queue
