-- ===== src/Server.antt =====
-- crates/msgbus-server/src/lib.rs: the gRPC service over a store.
pub mod Status
pub mod Proto
pub mod Convert
pub mod Service
pub mod Subscribe
pub mod Control
pub mod Own
pub mod Stream
pub mod Live
pub mod Roundtrip
pub mod Sync
pub mod Identity
pub mod Kept
pub mod Replay
