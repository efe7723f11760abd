-- ===== src/Engine/Open/Reopens.antt =====
-- Opening an engine behind a checkpoint.
use z1kv.Common.{ℕ, ◌-◌, ◌≡◌, ◌∙◌, ◌<◌, ◌⊎◌, refl, sym, ap, subst, some, inl, inr, List, arith}
use z1kv.Common.Map.{get}
use z1kv.Errors.{ok}
use z1kv.Mvcc.Prune.{u64_mod}
use z1kv.Mvcc.Manager.{get_commit_ts}
use z1kv.Mvcc.Manager.Wf.Histories.{or_else}
use z1kv.Wal.Record.{WalEntry}
use z1kv.Wal.Writer.{Inner}
use z1kv.Wal.Recovery.Reading.{largest_commit, logged_ts}
use z1kv.Wal.Checkpoint.{CheckpointDir, load_latest, recovery_baseline}
use z1kv.Engine.{World, Engine, Z1Config}
use z1kv.Engine.Transactions.{checkpoint}
use z1kv.Engine.Run.Sound.{Sound}
use z1kv.Engine.Open.{DataDir, Opening, or_nothing, open_with_config}
use z1kv.Engine.Open.Recovers.{Readable, open_with_config-Opened}
use z1kv.Engine.Open.Saved.{Fits, saved_state, get-history_entries}
use z1kv.Engine.Open.Saves.{Saved, checkpoint-Saved, baseline-fits}
use z1kv.Engine.Open.Loads.{checkpoint-Loads}

module _ (w : World) (e : Engine) (now_ms : ℕ) (records : List WalEntry) where
  -- The timestamps of the log over those that the engine had at its checkpoint.
  abbrev FromEngine : Engine → Type 0
  FromEngine out =
      (t : ℕ) → get_commit_ts t out.mvcc ≡ or_else (logged_ts t records) (get_commit_ts t e.mvcc)

  -- The timestamps of the log over those of the checkpoint of before.
  abbrev FromBefore : Engine → Type 0
  FromBefore out =
      (t : ℕ)
      → get_commit_ts t out.mvcc
        ≡ or_else (logged_ts t records)
            (get t (or_nothing (recovery_baseline w.state_codec e.checkpoints)).1)

  pub record Reopened (out : Engine) : Type 0 where
    pub sound : Sound out
    pub commits : FromBefore out ⊎ FromEngine out
    pub done : (checkpoint w now_ms e).1 ≡ ok tt → FromEngine out

  saved_ts :
      (t : ℕ) (d : CheckpointDir)
      → load_latest w.state_codec d ≡ some (saved_state now_ms e)
      → get t (or_nothing (recovery_baseline w.state_codec d)).1 ≡ get_commit_ts t e.mvcc
  unfolding recovery_baseline get_commit_ts
  saved_ts t d h = rw (h, recovery_baseline) (get-history_entries t e.mvcc.committed_history)

  same_baseline :
      (d : CheckpointDir)
      → load_latest w.state_codec d ≡ load_latest w.state_codec e.checkpoints
      → or_nothing (recovery_baseline w.state_codec d)
        ≡ or_nothing (recovery_baseline w.state_codec e.checkpoints)
  unfolding recovery_baseline
  same_baseline d h = rw (h, recovery_baseline) refl

  -- A sound engine whose directory has no checkpoint, or one that is fit for an opening, makes a checkpoint,
  -- however its writes and calls end. Then an engine that opens on its checkpoints and on a directory that
  -- can be locked and whose log can be read, with ids below the last one, opens and is sound. Its commit
  -- timestamps are those of the log, and besides those of the checkpoint of before or those that the engine
  -- had; they are the latter when the checkpoint has returned `Ok`.
  pub checkpoint-reopens :
      Saved w e
      → (config : Z1Config) (now : ℕ) (dir : DataDir) (o : Opening) (log : Inner)
      → dir.checkpoints ≡ (checkpoint w now_ms e).0.checkpoints
      → Readable w o dir log records
      → largest_commit records 0 < u64_mod - 1
      → (out : Engine) × (open_with_config w o config now dir ≡ ok out) × Reopened out
  checkpoint-reopens s config now dir o log same readable room =
      let fits : Fits w.state_codec dir.checkpoints =
        subst (Fits w.state_codec) (sym same) (checkpoint-Saved w now_ms e s).fits in
      let (distinct, old, below) = baseline-fits w dir.checkpoints fits in
      let (out, opens, opened) =
        open_with_config-Opened w config now records dir o log readable distinct old below room in
      let loads =
        checkpoint-Loads w now_ms e (omega (arith, s.sound.below.ahead, s.sound.counter_u64)) in
      (
        out,
        opens,
        record {
          sound = opened.sound;
          commits = elim loads.either [
            | inl before ↦ inl (λ t.
                opened.history t
                ∙ ap (λ b. or_else (logged_ts t records) (get t b.1))
                    (same_baseline dir.checkpoints (ap (load_latest w.state_codec) same ∙ before)))
            | inr new ↦ inr (λ t.
                opened.history t
                ∙ ap (or_else (logged_ts t records))
                    (saved_ts t dir.checkpoints (ap (load_latest w.state_codec) same ∙ new)))
          ];
          done = λ success t.
              opened.history t
              ∙ ap (or_else (logged_ts t records)) (
                  saved_ts t dir.checkpoints
                    (ap (load_latest w.state_codec) same ∙ loads.done success));
        },
      )
