-- ===== src/Scheduler.antt =====
-- The scheduler of crates/kanbei-scheduler/src/lib.rs: its data, the wake policy, the state, the wake
-- decision, the end of a run with its circuit breakers, and usage; then what is proved of them.
pub mod Types
pub mod Policy
pub mod State
pub mod Wake
pub mod Outcome
pub mod Usage
pub mod Run
pub mod Breakers
pub mod Queueing
pub mod Wakes
pub mod Runs
pub mod Forced
pub mod Outcomes
pub mod Runaway
pub mod Boundaries
mod Examples
