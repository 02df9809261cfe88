-- ===== src/Worker.antt =====
-- crates/worklane/src/worker: the worker.
pub mod Seams
pub mod Process
pub mod Run
pub mod Once
pub mod Order
pub mod CircuitBreaker
pub mod Config
pub mod Idle
mod Examples
pub mod Loop
pub mod Serve
