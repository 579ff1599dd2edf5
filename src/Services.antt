-- ===== src/Services.antt =====
-- The service registry of crates/kanbei-services/src/lib.rs.
pub mod Types
pub mod KeyMap
pub mod Unique
pub mod Search
pub mod Registry
pub mod Examples
