-- ===== src/Client.antt =====
-- crates/worklane/src/client.rs and client_builder.rs: the client that enqueues jobs.
pub mod Publisher
pub mod State
pub mod Builder
pub mod Offload
pub mod Batch
pub mod Lanes
pub mod FanIn
pub mod Topology
pub mod Submissions
pub mod Files
pub mod Contained
mod Examples
mod FileExamples
