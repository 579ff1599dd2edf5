-- ===== src/Services/Registry.antt =====
-- `ServiceRegistry` of crates/kanbei-services/src/lib.rs. `before` is the order of the displayed keys, by which
-- the program sorts.
pub mod Graph
pub mod Ops
pub mod Indices
pub mod Acyclic
pub mod Invariant
pub mod Holding
pub mod Runs
pub mod Replacement
