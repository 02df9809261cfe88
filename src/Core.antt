-- ===== src/Core.antt =====
-- crates/worklane-core: the data model and the policies that every other crate shares.
pub mod Duration
pub mod Error
pub mod Envelope
pub mod Retention
pub mod Retry
pub mod Spi
pub mod Traits
pub mod Redact
pub mod Codec
pub mod Clock
pub mod ClaimCheck
pub mod Lane
