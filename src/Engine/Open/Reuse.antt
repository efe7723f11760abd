-- ===== src/Engine/Open/Reuse.antt =====
-- The id that an engine hands out behind an opening.
use z1kv.Common.{ℕ, max, ◌+◌, ◌-◌, ◌≡◌, ◌∙◌, ◌<◌, ap, none, some, List, [], ◌∷◌, ◌++◌, arith}
use z1kv.Common.Map.{get}
use z1kv.Errors.{ok}
use z1kv.Mvcc.Prune.{u64_mod}
use z1kv.Mvcc.Manager.{get_commit_ts}
use z1kv.Mvcc.Manager.Wf.Histories.{or_else}
use z1kv.Wal.Record as record_kind
use z1kv.Wal.Record.{WalEntry}
use z1kv.Wal.Writer.{Inner}
use z1kv.Wal.Recovery.Reading.{largest_commit, live_ops, logged_ts-commit}
use z1kv.Engine.{World, Z1Config, Engine}
use z1kv.Engine.Transactions.{begin_txn}
use z1kv.Engine.Transactions.Begins.{Ready, begin_txn-Began}
use z1kv.Engine.Open.{DataDir, Opening, open_with_config}
use z1kv.Engine.Open.Recovers.{Readable, baseline, open_with_config-Opened}
use z1kv.Engine.Open.Saved.{Fits}
use z1kv.Engine.Open.Saves.{baseline-fits}

module _ (w : World) (config : Z1Config) (now : ℕ) (records : List WalEntry) (dir : DataDir) where
  -- The id behind the commits of the log and of the checkpoint.
  abbrev pub next_id : ℕ
  next_id = max (baseline w config now records dir).0 (largest_commit records 0) + 1

  -- An engine that opens on a log and a checkpoint gives its first transaction the id behind the committed
  -- ones, although the log holds live records of this id. An opening on a log that continues this one with
  -- a `Commit` of the id then takes it for committed. Both openings find what they read readable, a
  -- checkpoint that is fit for it or none, and ids that leave room.
  pub open_with_config-reuses :
      (id : ℕ)
      → next_id ≡ id
      → (o p : Opening) (log later : Inner) (dir' : DataDir) (inserted_at : ℕ) (ops : List WalEntry)
      → Readable w o dir log records
      → Fits w.state_codec dir.checkpoints
      → id < u64_mod - 1
      → live_ops id records none ≡ some ops
      → Readable w p dir' later
          (records ++ record { txn_id = id; record_of = record_kind.commit id inserted_at } ∷ [])
      → Fits w.state_codec dir'.checkpoints
      → largest_commit
          (records ++ record { txn_id = id; record_of = record_kind.commit id inserted_at } ∷ [])
          0
        < u64_mod - 1
      → (e : Engine) × (open_with_config w o config now dir ≡ ok e)
        × ((begin_txn e).1 ≡ ok id)
        × (after : Engine) × (open_with_config w p config now dir' ≡ ok after)
        × (get_commit_ts id after.mvcc ≡ some id)
  open_with_config-reuses id is_next o p log later dir' inserted_at ops readable fits room crashed
        readable' fits' room' =
      let (distinct, old, below) = baseline-fits w dir.checkpoints fits in
      let (distinct', old', below') = baseline-fits w dir'.checkpoints fits' in
      let (e, opens, opened) =
        open_with_config-Opened w config now records dir o log readable distinct old below
          (omega (arith, room, is_next)) in
      let (after, opens', opened') =
        open_with_config-Opened w config now _ dir' p later readable' distinct' old' below' room' in
      let ready : Ready e = record {
        wf = opened.sound.below.wf;
        ahead = opened.sound.below.ahead;
        active_below = opened.sound.below.active_below;
      } in
      let began = begin_txn-Began e ready (omega (arith, room, opened.counter, is_next)) in
      (
        e,
        opens,
        began.result ∙ ap (λ n. ok n) (opened.counter ∙ is_next),
        after,
        opens',
        opened'.history id
            ∙ ap (λ o. or_else o (get id (baseline w config now records dir').1))
                (logged_ts-commit id id inserted_at records ops crashed),
      )
