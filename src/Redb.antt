-- ===== src/Redb.antt =====
-- crates/msgbus-store-redb/src/lib.rs: the store over the tables of the redb database. `Db` and the
-- modules named after operations hold the code; the others prove what holds of it.
pub mod Deps
pub mod Tables
pub mod Keys
pub mod Db
pub mod Messages
pub mod Replicate
pub mod Heads
pub mod Fifo
pub mod PeerSync
pub mod Store
pub mod Log
pub mod Markers
pub mod Reach
