-- ===== src/Lib.antt =====
-- msgbus keeps an append-only log of messages per topic and origin node, FIFO queues,
-- tombstones that mark ranges of a log as deleted, and the state of the synchronisation with
-- peers. The daemon serves them over gRPC from a store, and copies the logs of its peers into
-- the store.
--
-- Core models crates/msgbus-core/src/lib.rs: Core/Error is MsgbusError and the chains of `?`,
-- Core/Name is Topic, QueueName, MessageId and validate_part, Core/Node is NodeId with key and
-- from_key, Core/Message the records and their derived equality, Core/Word the saturating sums
-- of u64 and u32.
--
-- Redb models crates/msgbus-store-redb/src/lib.rs, one function per operation of MsgbusStore:
-- Redb/Messages (append_message, fetch_messages, get_head, tombstone_range,
-- tombstone_range_with_marker), Redb/Replicate (put_replicated_message), Redb/Heads
-- (list_heads), Redb/Fifo (enqueue_fifo, peek_fifo, ack_fifo, reject_fifo), Redb/PeerSync
-- (record_peer_sync_state, list_peer_sync_states), over the tables of Redb/Db and the keys of
-- Redb/Keys. An operation takes the database and gives its result with the database after it;
-- a transaction that `?` leaves early changes nothing.
--
-- The tables of redb, serde_json and base64 are not code of the repository. Redb/Deps takes
-- them as parameters with what their documentation states: a table is a map in the order of
-- its keys, serde_json reads back what it wrote and writes every value of the types used here,
-- base64 is injective and its alphabet has no slash. Errors of the file system are not
-- modelled. The clock (now_ms) and the identifiers (MessageId::new) are arguments of the
-- operations. A text is its list of code points, bytes are numbers.
--
-- Loops over a range of a table are structural recursion on the entries that the range holds,
-- so no fuel is needed. Numbers are natural numbers with the saturating sums written out; an
-- append with room is one whose counter is below u64::MAX.
--
-- Redb/Log states the invariant of the log (IsLog), and its children are about the operations
-- on logs; Redb/Fifo/Queue states the invariant of the queues (IsFifo, given the number of
-- each queue's front) and their contents as lists, and its children are about the operations
-- on queues. Redb/Reach has one step for each call of an operation that writes and what the
-- steps reach; Redb/PeerSync/Failures is about the counter of failures. Redb/Markers describes
-- the tombstone scan. Text and its children carry the lemmas on texts, decimal numbers of
-- fixed width, and ordered maps. Tests holds the witnesses, on a small database over a
-- concrete table, encoding and base64.
--
-- Core/Store is the trait MsgbusStore as a record of operations over a state; Redb/Store fills
-- it with the redb store. Server models crates/msgbus-server/src/lib.rs over such a store:
-- Server/Status (status_from_error), Server/Proto (the messages of
-- proto/msgbus/v1/msgbus.proto), Server/Convert (core_node, core_message, proto_message and
-- the others), Server/Service (the handlers), Server/Subscribe (subscribe), Server/Control
-- (apply_control_message and replay_control_messages, whose windows run on a fuel of one round
-- per head of the log and one more: each window but the last starts above the one before it).
-- A handler takes the service, which is the store and what was sent on the broadcast channel,
-- and gives its reply with the service after it. A subscription is the list of what its task
-- sends to a client that does not hang up, given what the channel brings. Server/Own,
-- Server/Stream, Server/Live, Server/Roundtrip, Server/Kept, Server/Replay and Server/Identity
-- hold the proofs.
--
-- Server/Sync models crates/msgbus-server/src/sync.rs: PeerSpec::parse, verify_peer_identity,
-- the recorded states and the messages of one fetch are in Server/Sync itself, connect_peer
-- and PeerClientTlsConfig in Server/Sync/Connect, sync_head in Server/Sync/Head, sync_peer,
-- sync_once and PeerSyncConfig in Server/Sync/Pass, the tasks of spawn_peer_sync_with_shutdown
-- and spawn_peer_sync in Server/Sync/Task. Files, the transport, the peer and the clock are
-- the parameter World of Server/Sync/World, a state with one function per call; what a peer
-- sends is not restricted but by the u64 of the wire. The windows of sync_head run on a fuel
-- of one round per head of the peer and one more, since each round but the last raises the
-- local head. Server/Sync/Safe, Server/Sync/SafeHead, Server/Sync/SafePass, Server/Sync/Reach,
-- Server/Sync/Verified, Server/Sync/Parsed and Server/Sync/Stopped hold the proofs.
--
-- Sdk models crates/msgbus-sdk-rust/src/lib.rs over the generated client, which is the
-- parameter Daemon of Sdk/Daemon, a state with one function per call: Sdk/Client (MsgbusClient
-- and its methods, SubscribeOptions, required, retryable_status), Sdk/Resilient
-- (ResilientSubscription). The loop of next_message runs for ever on a daemon that never
-- answers, so its fuel is the number of rounds that are looked at; nothing is claimed of a
-- call that runs out of it. Sdk/Order and Sdk/Received hold the proofs, and Sdk/Served those
-- on the SDK over the service, given a transport that brings in order what a handler sends.
--
-- Msgbusd models of crates/msgbus-server/src/main.rs the way from the arguments to the
-- configuration, peer_tls_config and server_tls_config, and the head of serve, with
-- Msgbusd/Checked for the proofs.
--
-- Sqlite models crates/msgbus-store-sqlite/src/lib.rs over the statements of SQLite, which
-- with serde_json are the parameters of Sqlite/Engine: Sqlite/Rows (the tables of initialize,
-- u64_to_i64, row_to_message, row_to_fifo), Sqlite/Messages (append_message, fetch_messages,
-- get_head, apply_tombstone_markers), Sqlite/Replicate (put_replicated_message),
-- Sqlite/Tombstones (tombstone_range, tombstone_range_with_marker, list_heads), Sqlite/Fifo,
-- Sqlite/PeerSync, and Sqlite/Store, which fills MsgbusStore. The WHERE of a statement is a
-- test on a row; a key that an INSERT breaks is looked for before it. Sqlite/Range holds the
-- proofs.
--
-- Not modelled: the opening of a database, pragmas and locks, a negative number in a column of
-- SQLite, the command line and the server of tonic, signals, a stream of a peer that never
-- ends, a subscriber that hangs up, logging, and the generated protobuf code.
pub mod Prelude
pub mod Text
pub mod Core
pub mod Redb
pub mod Server
pub mod Sdk
pub mod Msgbusd
pub mod Sqlite
mod Tests
