-- ===== src/Tests.antt =====
-- A concrete choice of what the crates take from elsewhere, and the theorems at concrete inputs.
mod Wire
mod Sample
mod Core
mod Redb
mod Fifo
mod Server
mod Deletion
mod Sync
mod Sdk
mod Served
mod Sqlite
