-- ===== src/Workflow.antt =====
-- crates/worklane/src/workflow.rs: continuations and fan-ins.
pub mod Payload
pub mod Slots
pub mod RoundTrip
pub mod Total
pub mod Watcher
pub mod Once
pub mod Progress
pub mod Fresh
pub mod Ready
mod Examples
