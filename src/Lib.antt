-- ===== src/Lib.antt =====
-- The storage core of z1kv: multi-version concurrency control, the versions in memory and in
-- patches, the write-ahead log and its replay.
--
-- The engine (txn/mod.rs) numbers transactions and passes their writes to the log (wal/mod.rs) and to
-- the in-memory store (store/mem.rs). The visibility manager (mvcc/visibility.rs) decides commits by
-- an index over the keys of the active transactions, keeps the history of commits, and answers which
-- versions a snapshot shows. The steps of a commit run in order (txn/protocol.rs). Flushed versions
-- are merged by the garbage collection (store/gc.rs). A flush (store/flush.rs) moves the hot buffer over
-- a cache (store/recent_flush_cache.rs) into patches of L2 (store/disk.rs), and a compaction moves L2
-- into L3; reads of the engine look at all of them. A checkpoint (wal/checkpoint.rs) saves the history
-- and truncates the log. Files are replaced by durable_writer.rs. After a crash the checkpoint and the
-- log are read back and the committed transactions are replayed (wal/recovery.rs).
--
-- Files, with the sources under src/ of the repository:
--   Common, Common/*     lists, association lists for hash maps, byte strings
--   Errors               error.rs, and `handle_degrade` of metrics.rs
--   Effects              methods on `&mut self` that return a `Result`
--   Mvcc/Types           the data of mvcc/visibility.rs, `VisibilityConfig` of config.rs
--   Mvcc/Filter          `VisFilter::is_row_visible` for `TxnSnapshot` and `VisibilityManager`
--   Mvcc/Conflict        Phases 1 to 3 of `commit_txn`
--   Mvcc/Prune           `prune_history`: `prune_by_count` and `prune_by_age` are its two strategies
--   Mvcc/Manager         the methods of `VisibilityManager`; `finish_commit` is the part of `commit_txn`
--                        behind the conflict detection, `take_snapshot` is
--                        `snapshot_with_commit_ts_map`, `recover_committed_history` is
--                        `recover_committed_history_with_config`
--   Store/Types          store/types.rs: keys, entries, the sparse patch
--   Store/Gc             store/gc.rs
--   Store/Mem            store/mem.rs, and `SyncLevel` of store/config.rs
--   Store/Mem/Scan       `range_visible` of store/mem.rs
--   Store/Disk           store/disk.rs; Store/Disk/Wf is its invariant
--   Store/RecentFlush    store/recent_flush_cache.rs
--   Store/Flush          store/flush.rs
--   Codec/*              codec/disk_format.rs, codec/timestamp.rs
--   DurableWriter        durable_writer.rs
--   Mvcc/Cache           mvcc/cache.rs, each method as one step
--   Mvcc/Cache/Threads   mvcc/cache.rs, the single accesses of `snapshot` and `invalidate` between threads; the
--                        manager stands still during a `snapshot`, which borrows it
--   Txn/Protocol         txn/protocol.rs
--   Wal/Record           records and `encode_record` of wal/mod.rs
--   Wal/Replay           `replay_all` and `read_one_record` of wal/mod.rs
--   Wal/Writer           `WalWriter` and `Inner` of wal/mod.rs
--   Wal/Writer/Holds     what the open segment holds, and what a replay reads from it
--   Wal/Recovery         wal/recovery.rs; Wal/Recovery/Reading reads a log one transaction at a time
--   Wal/Checkpoint       wal/checkpoint.rs
--   Engine               the state of txn/mod.rs, and `Z1Config` of config.rs
--   Engine/Reads         `get_at`, `get_for_txn`, `scan_at`; `get_now`, `scan_now` and `snapshot_now` are
--                        `get`, `scan` and `snapshot`
--   Engine/Transactions  `begin_txn`, `commit`, `rollback`, `put`, `delete`, `checkpoint`, maintenance
--   Engine/Run           sequences of the operations of the engine, and its invariant over them
--   Engine/Open          `open_with_config`; `Opening` gives the ends of its calls. Engine/Open/Saved, Saves and
--                        Loads are about the checkpoints it finds
--   EngineLock           engine_lock.rs on Unix
--   Tests, Tests/*       runs of the definitions at concrete inputs
--
-- State is passed explicitly; a method that can fail returns the state beside its result, since what
-- was written before an error stays written. Transaction ids, timestamps and sizes are natural
-- numbers; the places where the code wraps around (`commit_seq`, the time to live in milliseconds)
-- keep the remainder of 2^64, and subtraction stops at 0 where the code saturates. Clock readings are
-- arguments. A hash map is an association list in any order. `replay_segment` runs on fuel: a record
-- takes at least one byte, so more fuel than bytes is enough, and `replay_segments` passes that much.
-- `gc_loop` runs on the number of entries, of which each round takes at least one.
--
-- `begin_attempts` counts the attempts of `begin_txn` down from 16, and `attempts` those of
-- `write_durable` from 3. Each method of the engine is one step. In the code no lock spans the steps of a
-- commit, so another thread can run between `commit_txn` and the invalidation of the
-- snapshot cache. The log, which L1 and the engine share, stands in L1.
--
-- Parameters: `postcard` and `crc32fast` (the records `Codec`, `DiskFormat`, `StateCodec`), the outcomes
-- of the file system (`faults`, `torn`, `broken`, `Written`, `Removal`), the engine's `apply` of a replay
-- and its `CommitApplier`; the record `World` gathers them for the engine. The lock of a directory takes
-- `open`, `flock` and `close` as `Files`, and `FlockLaws` states what their documentation says.
--
-- Not modelled: what other threads do between the steps of a method of the engine; `PatchZoneMap` and
-- `StoreCheckpointState`, which nothing reads; Windows-only branches, waits, traces, counters and the
-- texts of messages.
pub mod Common
pub mod Errors
pub mod Mvcc
pub mod Effects
pub mod Codec
pub mod DurableWriter
pub mod Store
pub mod Txn
pub mod Wal
pub mod Engine
pub mod EngineLock
pub mod Tests
