-- ===== src/Kernel.antt =====
-- The commit path of crates/kanbei-kernel/src/commit.rs, with the writer pins of pins.rs.
pub mod Pins
pub mod Commit
pub mod Growth
pub mod Preparing
pub mod Committing
mod Examples
