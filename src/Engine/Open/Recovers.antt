-- ===== src/Engine/Open/Recovers.antt =====
-- What an engine knows of the past when it opens, and that it is ready to run.
use z1kv.Common.{
  ◌+◌, ℕ, max, ◌*◌, ◌-◌, ◌≡◌, ◌≤◌, ◌<◌, ◌∙◌, refl, sym, ap, Option, none, some, List, arith,
}
use z1kv.Common.Map.{Map, get, Distinct}
use z1kv.Errors.{Result, ok, checked, IoKind, ◌>>=◌}
use z1kv.Mvcc.Types.{VisibilityManager}
use z1kv.Mvcc.Prune.{u64_mod}
use z1kv.Mvcc.Manager.{get_commit_ts}
use z1kv.Mvcc.Manager.Wf.Histories.{or_else}
use z1kv.Store.Mem.{MemStore, new_store, async, replay_put}
use z1kv.Wal.Record as record_kind
use z1kv.Wal.Record.{WalRecord, WalEntry}
use z1kv.Wal.Recovery.Reading.{largest_commit, logged_ts, logged_ts-le}
use z1kv.Wal.Recovery.Exact.{replay_committed_ops-Rebuilt}
use z1kv.Wal.Checkpoint.{recovery_baseline}
use z1kv.Engine.{World, Z1Config, Engine}
use z1kv.Engine.Run.Sound.{Sound}
use z1kv.EngineLock.{EngineLock}
use z1kv.Wal.Writer.{Inner, open_writer}
use z1kv.Wal.Replay.{replay_all}
use z1kv.Engine.Open.Merged.{
  recover_mvcc-Wf, recover_mvcc-idle, recover_mvcc-le, recover_mvcc-history,
}
use z1kv.Engine.Open.{
  Opening, replay_log, DataDir, replay_op, or_nothing, recover_mvcc, assemble, after_replay,
  open_with_config,
}

replay_op-works : (op : WalEntry) (m : MemStore) → (n : MemStore) × (replay_op op m ≡ (n, ok tt))
unfolding replay_op
replay_op-works op m = go op.record_of refl
  where
    go : (r : WalRecord) → op.record_of ≡ r → (n : MemStore) × (replay_op op m ≡ (n, ok tt))
    go (record_kind.put cf key value) h = (
      replay_put
          (record {
            key = record { cf = cf; key = key };
            txn_id = op.txn_id;
            value = value;
            ts = 0;
          })
          m,
      rw (h, replay_op) refl,
    )
    go record_kind.begin h = (m, rw (h, replay_op) refl)
    go (record_kind.commit ts ins) h = (m, rw (h, replay_op) refl)
    go record_kind.rollback h = (m, rw (h, replay_op) refl)
    go (record_kind.checkpoint n) h = (m, rw (h, replay_op) refl)

-- What an engine that opens on records and a directory is.
pub record Opened (w : World) (records : List WalEntry) (dir : DataDir) (e : Engine) : Type 0 where
  pub sound : Sound e
  -- The counter is behind the largest id with a `Commit` in the log, and that of the checkpoint.
  pub counter :
      e.txn_counter
      ≡ max
          (or_nothing (recovery_baseline w.state_codec dir.checkpoints)).0
          (largest_commit records 0)
        + 1
  pub history :
      (t : ℕ)
      → get_commit_ts t e.mvcc
        ≡ or_else
            (logged_ts t records)
            (get t (or_nothing (recovery_baseline w.state_codec dir.checkpoints)).1)

-- The directory can be created and locked, and the log opened and read.
pub record Readable (w : World) (o : Opening) (dir : DataDir) (log : Inner)
    (records : List WalEntry) : Type 0 where
  pub created : o.create_dir ≡ none
  pub locked : (lock : EngineLock) × (o.lock ≡ ok lock)
  pub opened : open_writer o.wal_calls w.wal_config dir.segments ≡ ok log
  pub read : replay_all o.replay_calls w.codec log.files ≡ ok records

module _ (w : World) (config : Z1Config) (now : ℕ) (records : List WalEntry) (dir : DataDir) where
  abbrev pub baseline : ℕ × Map ℕ
  baseline = or_nothing (recovery_baseline w.state_codec dir.checkpoints)

  replay_log-Opened :
      (o : Opening) (log : Inner)
      → replay_all o.replay_calls w.codec log.files ≡ ok records
      → Distinct baseline.1
      → ((k v : ℕ) → get k baseline.1 ≡ some v → k ≤ baseline.0)
      → baseline.0 < u64_mod - 1
      → largest_commit records 0 < u64_mod - 1
      → (e : Engine) × (replay_log w o config now dir log ≡ ok e) × Opened w records dir e
  unfolding replay_log after_replay assemble get
  replay_log-Opened o log read old_distinct old room_old room =
      let (l1, q, ends, r) =
        replay_committed_ops-Rebuilt replay_op config.strict_mode replay_op-works records
          (new_store (64 * 1024 * 1024) async) in
      let seen : (k v : ℕ) → get k q.commit_ts_map ≡ some v → k ≤ q.max_seen_committed_txn =
        λ k v h. rw (r.seen) (logged_ts-le k v records (sym (r.history k) ∙ h)) in
      let room_both : max baseline.0 q.max_seen_committed_txn < u64_mod - 1 =
        omega (arith, room_old, room, r.seen) in
      let mvcc : VisibilityManager = recover_mvcc config.visibility now baseline q in
      (
        assemble w config dir log (max baseline.0 q.max_seen_committed_txn) l1 mvcc,
        rw (read, replay_log) (ap (after_replay w config now dir log) ends),
        record {
          sound = record {
            below = record {
              wf =
                  recover_mvcc-Wf config.visibility now baseline q old old_distinct seen r.distinct;
              ahead = omega (
                arith,
                room_both,
                recover_mvcc-le config.visibility now baseline q old old_distinct seen r.distinct,
              );
              active_below = λ k m h. absurd (
                  cc (
                    ap (get k) (
                        recover_mvcc-idle config.visibility now baseline q old old_distinct seen
                          r.distinct),
                    h,
                  ));
            };
            counter_u64 = omega (arith, room_both);
            fresh = λ c h. absurd (cc (h));
          };
          counter = omega (arith, room_both, r.seen);
          history = λ t.
              recover_mvcc-history config.visibility now baseline q old old_distinct seen r.distinct
                t
              ∙ ap (λ o. or_else o (get t baseline.1)) (r.history t);
        },
      )

  -- Where the directory can be created and locked and the log opened and read, and a checkpoint, if there is
  -- one, lists each transaction once and none past its own id, with the ids below the last one: opening
  -- succeeds, and the engine satisfies the invariant of its runs. The commit timestamp of a transaction is
  -- that of its last `Commit` in the log when the log has a record behind its last `Rollback`, and else the
  -- one in the checkpoint, and the counter is behind the largest id of a `Commit` and of the checkpoint.
  pub open_with_config-Opened :
      (o : Opening) (log : Inner)
      → Readable w o dir log records
      → Distinct baseline.1
      → ((k v : ℕ) → get k baseline.1 ≡ some v → k ≤ baseline.0)
      → baseline.0 < u64_mod - 1
      → largest_commit records 0 < u64_mod - 1
      → (e : Engine) × (open_with_config w o config now dir ≡ ok e) × Opened w records dir e
  unfolding open_with_config
  open_with_config-Opened o log r distinct old room_old room =
      let (e, ends, opened) = replay_log-Opened o log r.read distinct old room_old room in
      (
        e,
        ap (λ (c : Option IoKind). checked c (o.lock >>= λ lock. opens)) r.created
            ∙ ap (λ (l : Result EngineLock). l >>= λ lock. opens) r.locked.1
            ∙ ap (λ (l : Result Inner). l >>= replay_log w o config now dir) r.opened
            ∙ ends,
        opened,
      )
    where
      opens : Result Engine
      opens = open_writer o.wal_calls w.wal_config dir.segments >>= replay_log w o config now dir
