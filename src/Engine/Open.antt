-- ===== src/Engine/Open.antt =====
-- `open_with_config` of txn/mod.rs: the layers from their directories, then the baseline of the checkpoint
-- and the replay of the log. `Opening` gives the outcomes of the calls in front of that.
pub mod Reuse
pub mod Merged
pub mod Recovers
pub mod Aborted
pub mod Saved
pub mod Saves
pub mod Loads
pub mod Reopens
use z1kv.Common.{ℕ, ◌+◌, ◌*◌, ◌-◌, max, min, Bool, Option, none, some, List, [], ◌∷◌}
use z1kv.Common.Map.{Map, insert}
use z1kv.Common.Bytes.{Bytes}
use z1kv.Errors.{Result, ok, err, ◌>>=◌, checked, IoKind, wal}
use z1kv.EngineLock.{EngineLock}
use z1kv.Wal.Replay.{replay_all}
use z1kv.Mvcc.Types.{VisibilityManager, VisibilityConfig, new_with_config}
use z1kv.Mvcc.Prune.{u64_mod}
use z1kv.Mvcc.Manager.{recover_committed_history}
use z1kv.Mvcc.Cache.{new_snapshot_cache}
use z1kv.Store.Types.{Z1Entry}
use z1kv.Store.Mem.{MemStore, new_store, async, replay_put}
use z1kv.Store.RecentFlush.{new_cache}
use z1kv.Store.Disk.{DiskLayer, open_layer, max_patch_id}
use z1kv.Store.Disk.Paths.{PathMap}
use z1kv.Store.Flush.{FlushEngine}
use z1kv.Wal.Record.{WalRecord, WalEntry}
use z1kv.Wal.Record as record_kind
use z1kv.Wal.Writer.{Inner, open_writer}
use z1kv.Wal.Recovery.{Outcome, done, aborted, RecoveryResult, replay_committed_ops}
use z1kv.Wal.Checkpoint.{CheckpointDir, recovery_baseline}
use z1kv.Engine.{Z1Config, World, Engine}

-- What stands in the data directory.
pub record DataDir : Type 0 where
  pub segments : Map Bytes
  pub l2_files : PathMap Bytes
  pub l3_files : PathMap Bytes
  pub checkpoints : CheckpointDir

-- How the calls of the file system end: `create_dir_all` on the data directory, `EngineLock::acquire`, those of
-- `WalWriter::open` and those of `replay_all`.
pub record Opening : Type 0 where
  pub create_dir : Option IoKind
  pub lock : Result EngineLock
  pub wal_calls : ℕ → Option IoKind
  pub replay_calls : ℕ → Option IoKind

unfoldable pub replay_op : WalEntry → MemStore → MemStore × Result (Unit {0})
unfolding replay_put
replay_op op l1 = elim op.record_of [
  | record_kind.put cf key value ↦ (
    replay_put
        (record { key = record { cf = cf; key = key }; txn_id = op.txn_id; value = value; ts = 0 })
        l1,
    ok tt,
  )
  | _ ↦ (l1, ok tt)
]

-- The entries of the log replace those of the checkpoint.
unfoldable pub merge_history : Map ℕ → Map ℕ → Map ℕ
unfolding insert
merge_history [] history = history
merge_history ((txn_id, commit_ts) ∷ entries) history =
    merge_history entries (insert txn_id commit_ts history)

abbrev pub or_nothing : Option (ℕ × Map ℕ) → ℕ × Map ℕ
or_nothing none = (0, [])
or_nothing (some baseline) = baseline

-- The manager behind a recovery.
unfoldable pub recover_mvcc :
    VisibilityConfig → (now : ℕ) → ℕ × Map ℕ → RecoveryResult → VisibilityManager
unfolding merge_history recover_committed_history new_with_config
recover_mvcc config now (cp_committed_txn, cp_history) recovery =
    let fresh : VisibilityManager = record (new_with_config config) {
      committed_txn = max cp_committed_txn recovery.max_seen_committed_txn;
    } in
    record (recover_committed_history
      (merge_history recovery.commit_ts_map (merge_history cp_history [])) none
      recovery.inserted_at_map now fresh) { replay_watermark = recovery.replay_watermark }

-- `saturating_add(1)`
abbrev pub saturating_succ : ℕ → ℕ
saturating_succ n = min (n + 1) (u64_mod - 1)

unfoldable pub assemble :
    World → Z1Config → DataDir → Inner → (committed_txn : ℕ) → MemStore → VisibilityManager → Engine
unfolding open_layer max_patch_id
assemble w config dir log committed_txn l1 mvcc =
    let l2 = open_layer w.disk_format w.l2_broken dir.l2_files in
    let l3 = open_layer w.disk_format w.l3_broken dir.l3_files in
    record {
      config = config;
      mvcc = mvcc;
      snapshot_cache = new_snapshot_cache;
      txn_snapshots = [];
      layers = record {
        l1 = record l1 { wal = some log };
        l2 = l2;
        l3 = l3;
        recent_flush = new_cache;
        flush_epoch = 0;
        next_patch_id = max (max_patch_id l2) (max_patch_id l3) + 1;
      };
      checkpoints = dir.checkpoints;
      txn_counter = saturating_succ committed_txn;
    }

unfoldable pub after_replay :
    World
    → Z1Config
    → (now : ℕ) → DataDir
    → Inner
    → MemStore × Outcome RecoveryResult
    → Result Engine
unfolding recovery_baseline recover_mvcc assemble
after_replay w config now dir log (l1, aborted e) = err wal
after_replay w config now dir log (l1, done recovery) =
    let baseline = or_nothing (recovery_baseline w.state_codec dir.checkpoints) in
    ok (
      assemble w config dir log (max baseline.0 recovery.max_seen_committed_txn) l1
        (recover_mvcc config.visibility now baseline recovery))

-- The log is open, which may have created its first segment.
unfoldable pub replay_log : World → Opening → Z1Config → (now : ℕ) → DataDir → Inner → Result Engine
unfolding replay_op replay_all replay_committed_ops after_replay new_store
replay_log w o config now dir log = after_replay w config now dir log (
    replay_committed_ops replay_op config.strict_mode (replay_all o.replay_calls w.codec log.files)
      (new_store (64 * 1024 * 1024) async))

unfoldable pub open_with_config : World → Opening → Z1Config → (now : ℕ) → DataDir → Result Engine
unfolding open_writer replay_log
open_with_config w o config now dir = checked o.create_dir (do
  lock ← o.lock
  log ← open_writer o.wal_calls w.wal_config dir.segments
  replay_log w o config now dir log)
