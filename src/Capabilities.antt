-- ===== src/Capabilities.antt =====
-- The capability broker of crates/kanbei-capabilities/src/lib.rs.
pub mod Types
pub mod Policy
pub mod Grants
pub mod Check
pub mod Verbs
pub mod Monotone
pub mod Authority
pub mod Budget
pub mod Retire
pub mod Recheck
mod Examples
