-- ===== src/Sdk.antt =====
-- crates/msgbus-sdk-rust/src/lib.rs: the client of the daemon.
pub mod Daemon
pub mod Client
pub mod Resilient
pub mod Order
pub mod Received
pub mod Served
