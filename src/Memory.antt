-- ===== src/Memory.antt =====
-- crates/worklane-memory: the in-memory broker.
pub mod State
pub mod Dead
pub mod Ops
pub mod Stores
pub mod Invariant
pub mod Pick
pub mod Cases
pub mod Calls
pub mod Receipts
pub mod Reserve
pub mod Sweep
pub mod Prune
pub mod Enqueue
pub mod Schedules
mod Examples
mod EnqueueExamples
