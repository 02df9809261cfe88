-- ===== src/Sqlite.antt =====
-- crates/worklane-sqlite: the broker on a SQLite database.
pub mod Session
pub mod Rows
pub mod Broker
pub mod Stores
pub mod Schema
pub mod Calls
pub mod Atomic
pub mod Invariant
pub mod Choice
pub mod Reserve
pub mod Blocked
mod Examples
