-- ===== src/Log.antt =====
-- The append log of crates/kanbei-log/src/lib.rs: frames of events, each with the digest of the frame
-- before it.
pub mod Types
pub mod Writer
pub mod Reader
pub mod Agreement
pub mod Appending
pub mod History
pub mod Reopen
mod Examples
pub mod Durable
