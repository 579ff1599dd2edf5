-- ===== src/Memory.antt =====
-- The memory of crates/kanbei-memory/src: claims, their manifests, and the writer of one scope.
pub mod Types
pub mod Claims
pub mod Fold
pub mod Check
pub mod Scan
pub mod Actor
pub mod Growth
pub mod Rereading
pub mod Loading
pub mod Admitting
pub mod Folding
pub mod Lineage
pub mod Contents
pub mod Recording
pub mod Proposing
pub mod Answering
pub mod Settling
pub mod Sharing
pub mod Holding
pub mod Interleaving
pub mod Losing
pub mod Durable
mod Plain
mod Examples
