-- ===== src/Engine/Open/Aborted.antt =====
-- A commit that the conflict detection aborts, and what an engine makes of its log later.
use z1kv.Common.{
  ◌-◌, ◌<◌, ℕ, ◌+◌, ◌≡◌, ◌≤◌, ◌∙◌, refl, ap, true, none, some, List, [], ◌∷◌, ◌++◌, length,
}
use z1kv.Common.Bytes.{Bytes}
use z1kv.Errors.{Result, ok, err, Z1Error}
use z1kv.Effects.{Exec, pure, continue, ◌>>◌}
use z1kv.Mvcc.Types.{TxnSnapshot, VisibilityManager}
use z1kv.Mvcc.Manager.{commit_txn, get_begin_ts, get_commit_ts}
use z1kv.Txn.Protocol.{apply_all}
use z1kv.Wal.Record as record_kind
use z1kv.Wal.Record.{WalEntry, encode_record}
use z1kv.Wal.Writer.{latest_writer, Inner, sync_each, sync_policy, append_durable}
use z1kv.Wal.Writer.Appends.{no_faults, nothing_torn}
use z1kv.Wal.Writer.Holds.{
  Holds, Single, append_durable-Holds, replay_all-Holds, files-latest_writer,
}
use z1kv.Wal.Recovery.Reading.{largest_commit, live_ops, logged_ts-commit}
use z1kv.Engine.{World, Z1Config, Engine, on_wal, with_log}
use z1kv.Engine.Transactions.{
  Clock, ensure_active_txn, engine_applier, commit_protocol, apply_mvcc_commit, after_apply, commit,
  invalidate_cache,
}
use z1kv.EngineLock.{EngineLock}
use z1kv.Mvcc.Prune.{u64_mod}
use z1kv.Wal.Replay.{replay_all}
use z1kv.Wal.Writer.Reopen.{open_writer-succeeds}
use z1kv.Engine.Open.Saved.{Fits}
use z1kv.Engine.Open.Saves.{baseline-fits}
use z1kv.Engine.Open.{DataDir, Opening, open_with_config}
use z1kv.Engine.Open.Recovers.{Opened, Readable, open_with_config-Opened}

-- A world without faults of the file system.
abbrev pub sound_disk : World → World
sound_disk w = record w { faults = no_faults; torn = nothing_torn }

-- An opening in which no call of the file system fails.
abbrev pub all_work : EngineLock → Opening
all_work lock = record {
  create_dir = none;
  lock = ok lock;
  wal_calls = no_faults;
  replay_calls = no_faults;
}

-- The one segment that a writer leaves is a log that can be opened and read.
pub left-Readable :
    (w : World) (es : List WalEntry) (log : Inner) (dir : DataDir) (lock : EngineLock)
    → Holds w.codec es log
    → Single log
    → Readable
        (sound_disk w)
        (all_work lock)
        (record dir { segments = log.files })
        (latest_writer w.wal_config log.files)
        es
left-Readable w es log dir lock holds single = record {
  created = refl;
  locked = (lock, refl);
  opened = open_writer-succeeds w.wal_config log.files;
  read =
      ap (replay_all no_faults w.codec) (files-latest_writer w.wal_config log single)
      ∙ replay_all-Holds w.codec es log holds single;
}

-- An engine opens on it.
reopens :
    (w : World) (es : List WalEntry) (log : Inner) (config : Z1Config) (now : ℕ) (dir : DataDir)
    (lock : EngineLock)
    → Holds w.codec es log
    → Single log
    → Fits w.state_codec dir.checkpoints
    → largest_commit es 0 < u64_mod - 1
    → (out : Engine) × (open_with_config
          (sound_disk w)
          (all_work lock)
          config
          now
          (record dir { segments = log.files })
        ≡ ok out)
      × Opened (sound_disk w) es (record dir { segments = log.files }) out
reopens w es log config now dir lock holds single fits small =
    let (distinct, old, below) = baseline-fits w dir.checkpoints fits in
    open_with_config-Opened (sound_disk w) config now es (record dir { segments = log.files })
      (all_work lock) (latest_writer w.wal_config log.files)
      (left-Readable w es log dir lock holds single) distinct old below small

module _ (w : World) (clock : Clock) (txn_id : ℕ) where
  abbrev pub commit_entry : WalEntry
  commit_entry = record { txn_id = txn_id; record_of = record_kind.commit txn_id clock.inserted_at }

  abbrev decided : VisibilityManager → VisibilityManager × Result TxnSnapshot
  decided mvcc = commit_txn txn_id clock.inserted_at clock.commit_ts clock.prune_ms mvcc

  abbrev finish : Exec Engine (Unit {0})
  finish e = after_apply (sound_disk w) clock txn_id (
      apply_all (engine_applier (sound_disk w) clock) (commit_protocol (sound_disk w) clock txn_id)
        e)

  -- What follows the record, when the manager refuses.
  finish-refused :
      (e : Engine) (x : Z1Error)
      → (decided e.mvcc).1 ≡ err x
      → ((finish e).1 ≡ err x) × ((finish e).0.layers ≡ e.layers)
  unfolding after_apply apply_all apply_mvcc_commit
  finish-refused e x h = go (decided e.mvcc) h
    where
      go :
          (p : VisibilityManager × Result TxnSnapshot)
          → p.1 ≡ err x
          → let out : Engine × Result (Unit {0}) = after_apply (sound_disk w) clock txn_id (
              continue
                (λ t. (pure tt >> (invalidate_cache >> pure tt)))
                (continue {B = Unit {0}} (λ s. pure tt) (record e { mvcc = p.0 }, p.1))) in
            (out.1 ≡ err x) × (out.0.layers ≡ e.layers)
      go (vm, ok s) k = absurd (cc (k))
      go (vm, err y) k = (cc (k), refl)

  -- A commit whose record fits into the only segment of a log that is synced at each commit, and that the
  -- manager then refuses: the caller gets the refusal, and the log is left with the `Commit` record. An engine
  -- that opens on that log, where no call of the file system fails and the ids leave room, takes the
  -- transaction for committed, if the log held a record of it behind its last `Rollback`.
  pub commit-aborted-revives :
      (e : Engine) (log : Inner) (es ops : List WalEntry) (b : Bytes) (begin_ts : ℕ) (x : Z1Error)
      (config : Z1Config) (now : ℕ) (dir : DataDir) (lock : EngineLock)
      → e.layers.l1.wal ≡ some log
      → w.wal_config.enabled ≡ true
      → sync_policy w.wal_config ≡ sync_each
      → Holds w.codec es log
      → Single log
      → encode_record w.codec commit_entry ≡ ok b
      → log.segment_bytes + length b ≤ log.max_file_size
      → get_begin_ts txn_id e.mvcc ≡ some begin_ts
      → (decided e.mvcc).1 ≡ err x
      → live_ops txn_id es none ≡ some ops
      → Fits w.state_codec dir.checkpoints
      → largest_commit (es ++ commit_entry ∷ []) 0 < u64_mod - 1
      → ((commit (sound_disk w) clock txn_id e).1 ≡ err x)
        × (after : Inner) × ((commit (sound_disk w) clock txn_id e).0.layers.l1.wal ≡ some after)
        × (reopened : Engine) × (open_with_config
              (sound_disk w)
              (all_work lock)
              config
              now
              (record dir { segments = after.files })
            ≡ ok reopened)
        × (get_commit_ts txn_id reopened.mvcc ≡ some txn_id)
  unfolding commit ensure_active_txn
  commit-aborted-revives e log es ops b begin_ts x config now dir lock attached on each holds single
        encoded room active refused wrote fits small =
      let (after, ends, held, one) =
        append_durable-Holds w.codec w.wal_config txn_id
          (record_kind.commit txn_id clock.inserted_at) es b log on each holds encoded room in
      let logged : logs e ≡ (with_log after e, ok tt) = rw (attached, ends) refl in
      let runs : commit (sound_disk w) clock txn_id e ≡ finish (with_log after e) =
        ap (continue (λ t. logs >> finish)) enters ∙ ap (continue (λ t. finish)) logged in
      let (fails, kept) = finish-refused (with_log after e) x refused in
      let (reopened, opens, opened) =
        reopens w (es ++ commit_entry ∷ []) after config now dir lock held (one single) fits
          small in
      (
        ap (λ p. p.1) runs ∙ fails,
        after,
        ap (λ (p : Engine × Result (Unit {0})). p.0.layers.l1.wal) runs ∙ ap (λ l. l.l1.wal) kept,
        reopened,
        opens,
        opened.history txn_id
            ∙ rw (logged_ts-commit txn_id txn_id clock.inserted_at es ops wrote) refl,
      )
    where
      logs : Exec Engine (Unit {0})
      logs = on_wal (
          append_durable no_faults nothing_torn w.codec w.wal_config txn_id
            (record_kind.commit txn_id clock.inserted_at))

      enters : ensure_active_txn txn_id e ≡ (e, ok tt)
      enters = rw (active, ensure_active_txn) refl
