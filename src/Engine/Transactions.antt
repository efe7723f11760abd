-- ===== src/Engine/Transactions.antt =====
-- The transactions of txn/mod.rs, and the maintenance behind a commit.
pub mod Begins
pub mod Untouched
pub mod Commits
use z1kv.Common.{
  ℕ, zero, suc, ◌+◌, ◌-◌, min, Bool, ◌&&◌, Option, none, some, List, [], ◌∷◌, length, ltb, leb,
  ◌==◌, if◌then◌else◌,
}
use z1kv.Common.Map.{Map, get, insert, remove}
use z1kv.Common.Bytes.{Bytes}
use z1kv.Errors.{
  Result, ok, err, Z1Error, internal, wal, mvcc_conflict, already_committed, txn_not_found,
}
use z1kv.Effects.{Exec, pure, raise, continue, ◌>>=◌, ◌>>◌}
use z1kv.Mvcc.Types.{TxnSnapshot, VisibilityManager, snapshot}
use z1kv.Mvcc.Prune.{u64_mod}
use z1kv.Mvcc.Manager.{
  begin_txn_with_snapshot, record_write, abort_txn, commit_txn, get_begin_ts, oldest_begin_ts,
}
use z1kv.Mvcc.Cache.{invalidate}
use z1kv.Store.Types.{Z1Entry, put_entry, tombstone}
use z1kv.Store.Mem as mem
use z1kv.Store.Mem.{MemStore}
use z1kv.Store.Flush.{FlushEngine, flush_l1_to_l2, try_flush, compact_l2_to_l3, try_compact, Counts}
use z1kv.Txn.Protocol.{
  PendingOp, mvcc_commit, commit_txn_record, snapshot_invalidate, CommitProtocol, CommitApplier,
  apply_all,
}
use z1kv.Wal.Record as record_kind
use z1kv.Wal.Writer.{Inner, append, append_durable, flush_and_sync}
use z1kv.Wal.Checkpoint.{CheckpointState, Durable, run_checkpoint}
use z1kv.Engine.{World, Engine, on_layers, on_wal, with_log, conflict_key}

-- The readings of the clock in a commit.
pub record Clock : Type 0 where
  pub inserted_at : ℕ
  pub commit_ts : ℕ
  pub prune_ms : ℕ
  pub checkpoint_ms : ℕ

unfoldable pub next_txn_id : Exec Engine ℕ
next_txn_id e =
    if e.txn_counter == u64_mod - 1
    then (e, err internal)
    else (record e { txn_counter = e.txn_counter + 1 }, ok e.txn_counter)

abbrev pub invalidate_cache : Exec Engine (Unit {0})
invalidate_cache e = (record e { snapshot_cache = invalidate e.snapshot_cache }, ok tt)

-- Registered and pinned, tried again with a larger id, or refused.
unfoldable pub after_register :
    ℕ → Exec Engine ℕ → Engine → VisibilityManager × Result TxnSnapshot → Engine × Result ℕ
unfolding insert
after_register txn_id again e (vm, ok snap) =
    (record e { mvcc = vm; txn_snapshots = insert txn_id snap e.txn_snapshots }, ok txn_id)
after_register txn_id again e (vm, err (mvcc_conflict (already_committed _))) =
    again (record e { mvcc = vm })
after_register txn_id again e (vm, err _) = (record e { mvcc = vm }, err internal)

unfoldable pub begin_attempts : ℕ → Exec Engine ℕ
unfolding next_txn_id invalidate after_register begin_txn_with_snapshot
begin_attempts zero = raise internal
begin_attempts (suc attempts) = do
  txn_id ← next_txn_id
  invalidate_cache
  λ e.
      after_register txn_id (begin_attempts attempts) e
        (begin_txn_with_snapshot txn_id snapshot e.mvcc)

abbrev pub begin_retry : ℕ
begin_retry = 16

unfoldable pub begin_txn : Exec Engine ℕ
unfolding begin_attempts
begin_txn = begin_attempts begin_retry

unfoldable pub ensure_active_txn : ℕ → Exec Engine (Unit {0})
unfolding get_begin_ts
ensure_active_txn txn_id e = elim (get_begin_ts txn_id e.mvcc) [
  | none ↦ (e, err (txn_not_found txn_id))
  | some _ ↦ (e, ok tt)
]

abbrev pub forget_snapshot : ℕ → Engine → Engine
forget_snapshot txn_id e = record e { txn_snapshots = remove txn_id e.txn_snapshots }

-- The lengths of the files in the directory of the log.
unfoldable pub size_bytes : Map Bytes → ℕ
size_bytes [] = 0
size_bytes ((seq, bytes) ∷ files) = length bytes + size_bytes files

unfoldable pub wal_size : Engine → ℕ
unfolding size_bytes
wal_size e = elim e.layers.l1.wal [ none ↦ 0 | some log ↦ size_bytes log.files ]

unfoldable pub history_entries : Map (ℕ × ℕ) → Map ℕ
history_entries [] = []
history_entries ((id, (ts, _)) ∷ h) = (id, ts) ∷ history_entries h

-- The least id of a pinned snapshot, `u64::MAX` for none.
unfoldable pub min_pinned : Map TxnSnapshot → ℕ
min_pinned [] = u64_mod - 1
min_pinned ((id, snap) ∷ snaps) = min id (min_pinned snaps)

unfoldable pub gc_watermark : Engine → ℕ
unfolding oldest_begin_ts min_pinned
gc_watermark e = min (oldest_begin_ts e.mvcc.active_txns) (min_pinned e.txn_snapshots)

abbrev pub on_durable : {A : Type 0} → Exec Durable A → Exec Engine A
on_durable m e = elim e.layers.l1.wal [
  | none ↦ (e, err wal)
  | some log ↦
      let (s, r) = m (log, e.checkpoints) in (with_log s.0 (record e { checkpoints = s.1 }), r)
]

module _ (w : World) where
  unfoldable pub checkpoint : (now_ms : ℕ) → Exec Engine (Unit {0})
  unfolding flush_l1_to_l2 flush_and_sync run_checkpoint history_entries
  checkpoint now_ms = do
    on_layers (flush_l1_to_l2 w.disk_format w.patch_write)
    on_wal (flush_and_sync w.faults w.torn w.codec)
    λ e.
        on_durable
          (run_checkpoint w.faults w.torn w.codec w.wal_config w.state_codec w.checkpoint_file
            w.checkpoint_pointer
            (record {
              checkpoint_id = e.mvcc.committed_txn;
              committed_txn = e.mvcc.committed_txn;
              timestamp_ms = now_ms;
              committed_history = history_entries e.mvcc.committed_history;
            }))
          e

  unfoldable pub checkpoint_if_large : (now_ms : ℕ) → Exec Engine (Unit {0})
  unfolding wal_size checkpoint
  checkpoint_if_large now_ms e =
      if ltb 0 e.config.checkpoint_wal_size_threshold
        && leb e.config.checkpoint_wal_size_threshold (wal_size e)
      then checkpoint now_ms e
      else (e, ok tt)

  unfoldable pub compact_if_many : Exec Engine (Unit {0})
  unfolding try_compact gc_watermark
  compact_if_many e =
      if ltb 0 e.config.l2_compaction_threshold
      then (do
        on_layers (
            try_compact w.disk_format w.patch_write w.l2_broken w.removal (gc_watermark e)
              e.config.l2_compaction_threshold)
        pure tt)
          e
      else (e, ok tt)

  unfoldable pub maybe_auto_maintain : (now_ms : ℕ) → Exec Engine (Unit {0})
  unfolding checkpoint_if_large compact_if_many
  maybe_auto_maintain now_ms = do checkpoint_if_large now_ms; compact_if_many

  -- `EngineApplier`
  unfoldable pub apply_mvcc_commit : Clock → ℕ → ℕ → Exec Engine (Unit {0})
  unfolding commit_txn
  apply_mvcc_commit clock txn_id inserted_at e =
      continue (λ _. pure tt)
        (
          record e {
            mvcc = (commit_txn txn_id inserted_at clock.commit_ts clock.prune_ms e.mvcc).0;
          },
          (commit_txn txn_id inserted_at clock.commit_ts clock.prune_ms e.mvcc).1,
        )

  abbrev pub engine_applier : Clock → CommitApplier Engine
  engine_applier clock = record {
    apply_mvcc_commit = apply_mvcc_commit clock;
    apply_put_committed_txn = λ counter. pure tt;
    apply_commit_txn_record = λ txn_id commit_ts. pure tt;
    apply_snapshot_invalidate = invalidate_cache;
  }

  abbrev pub commit_protocol : Clock → ℕ → CommitProtocol
  commit_protocol clock txn_id = record {
    txn_id = txn_id;
    pending_ops =
        mvcc_commit clock.inserted_at ∷ commit_txn_record txn_id txn_id ∷ snapshot_invalidate ∷ [];
  }

  -- The pinned snapshot is dropped either way; the failures of the maintenance are not the commit's.
  unfoldable pub after_apply : Clock → ℕ → Engine × Result (Unit {0}) → Engine × Result (Unit {0})
  unfolding maybe_auto_maintain remove
  after_apply clock txn_id (e, err x) = (forget_snapshot txn_id e, err x)
  after_apply clock txn_id (e, ok _) =
      ((maybe_auto_maintain clock.checkpoint_ms (forget_snapshot txn_id e)).0, ok tt)

  unfoldable pub commit : Clock → ℕ → Exec Engine (Unit {0})
  unfolding ensure_active_txn append_durable apply_all after_apply apply_mvcc_commit invalidate
  commit clock txn_id = do
    ensure_active_txn txn_id
    on_wal (
        append_durable w.faults w.torn w.codec w.wal_config txn_id
          (record_kind.commit txn_id clock.inserted_at))
    λ e.
        after_apply clock txn_id (apply_all (engine_applier clock) (commit_protocol clock txn_id) e)

  unfoldable pub rollback : ℕ → Exec Engine (Unit {0})
  unfolding ensure_active_txn invalidate append abort_txn remove
  rollback txn_id = do
    ensure_active_txn txn_id
    invalidate_cache
    on_wal (append w.faults w.torn w.codec w.wal_config txn_id record_kind.rollback)
    λ e. (forget_snapshot txn_id (record e { mvcc = abort_txn txn_id e.mvcc }), ok tt)

  abbrev pub on_l1 : {A : Type 0} → Exec MemStore A → Exec Engine A
  on_l1 m e = (record e { layers = record e.layers { l1 = (m e.layers.l1).0 } }, (m e.layers.l1).1)

  -- What `put` and `delete` share: the write set, then the log and L1.
  unfoldable pub write_entry : Z1Entry → Exec Engine (Unit {0})
  unfolding ensure_active_txn record_write conflict_key mem.put
  write_entry entry = do
    ensure_active_txn entry.txn_id
    λ e. (
      record e {
        mvcc = record_write entry.txn_id (conflict_key entry.key.cf entry.key.key) e.mvcc;
      },
      ok tt,
    )
    on_l1 (mem.put w.faults w.torn w.codec w.wal_config w.elapsed entry)

  unfoldable pub put : ℕ → Bytes → Bytes → ℕ → (ts : ℕ) → Exec Engine (Unit {0})
  unfolding write_entry put_entry
  put cf key value txn_id ts =
      write_entry (put_entry (record { cf = cf; key = key }) txn_id value ts)

  unfoldable pub delete : ℕ → Bytes → ℕ → (ts : ℕ) → Exec Engine (Unit {0})
  unfolding write_entry tombstone
  delete cf key txn_id ts = write_entry (tombstone (record { cf = cf; key = key }) txn_id ts)

  unfoldable pub flush_now : Exec Engine ℕ
  unfolding flush_l1_to_l2
  flush_now = on_layers (flush_l1_to_l2 w.disk_format w.patch_write)

  unfoldable pub flush : Exec Engine (Option ℕ)
  unfolding try_flush
  flush = on_layers (try_flush w.disk_format w.patch_write)

  unfoldable pub compact : ℕ → Exec Engine Counts
  unfolding compact_l2_to_l3
  compact min_active_begin_ts =
      on_layers
        (compact_l2_to_l3 w.disk_format w.patch_write w.l2_broken w.removal min_active_begin_ts)
