-- ===== src/Scheduler.antt =====
-- crates/worklane-scheduler/src/lib.rs: recurring schedules.
pub mod State
pub mod Daemon
pub mod Ids
pub mod Order
pub mod Strict
pub mod FailFast
pub mod Resilient
pub mod Due
mod Examples
