-- ===== src/Tests/Reopen.antt =====
-- A checkpoint of a small database, and an opening behind it.
use z1kv.Common.{◌≡◌, refl, [], ◌∷◌}
use z1kv.Errors.{ok}
use z1kv.Wal.Checkpoint.{load_latest}
use z1kv.Engine.{Engine}
use z1kv.Engine.Transactions.{checkpoint}
use z1kv.Engine.Open.{DataDir, open_with_config}
use z1kv.Engine.Open.Saved.{Fits}
use z1kv.Engine.Open.Saves.{Saved}
use z1kv.Engine.Open.Aborted.{all_work, left-Readable}
use z1kv.Wal.Writer.{latest_writer}
use z1kv.Tests.Opening.{
  lock, holding, segment, committed_1, one_committed, committed_1-Holds, one_segment, few_ids,
}
use z1kv.Engine.Open.Reopens.{Reopened, checkpoint-reopens}
use z1kv.Tests.Engine.{world, engine, engine-Sound, settings}

no_state : Fits world.state_codec engine.checkpoints
unfolding load_latest
no_state = λ s h. absurd (cc (h))

engine-Saved : Saved world engine
engine-Saved = record { sound = engine-Sound; fits = no_state }

-- Transaction 1 has committed since, and its log is the segment of the directory.
abbrev behind : DataDir
behind = record (holding committed_1) { checkpoints = (checkpoint world 70 engine).0.checkpoints }

checkpoint-reopens_example :
    (out : Engine) × (open_with_config world (all_work lock) settings 90 behind ≡ ok out)
    × Reopened world engine 70 one_committed out
checkpoint-reopens_example =
    checkpoint-reopens world engine 70 one_committed engine-Saved settings 90 behind (all_work lock)
      (latest_writer world.wal_config ((0, committed_1) ∷ [])) refl
      (left-Readable world one_committed (segment committed_1) behind lock committed_1-Holds
        one_segment)
      few_ids
