-- ===== src/Sqlite.antt =====
-- crates/msgbus-store-sqlite/src/lib.rs: the store over SQLite.
pub mod Engine
pub mod Rows
pub mod Messages
pub mod Replicate
pub mod Fifo
pub mod Tombstones
pub mod PeerSync
pub mod Store
pub mod Range
