-- ===== src/Tests/Opening.antt =====
-- Openings of an engine on a small log.
use z1kv.Common.{ℕ, ◌≤◌, ◌≡◌, ◌<◌, ◌-◌, length, refl, false, none, some, List, [], ◌∷◌, ◌++◌, arith}
use z1kv.Common.Map.{get, Distinct}
use z1kv.Common.Bytes.{Bytes}
use z1kv.Errors.{ok}
use z1kv.EngineLock.{EngineLock}
use z1kv.Mvcc.Prune.{u64_mod}
use z1kv.Mvcc.Manager.{get_commit_ts}
use z1kv.Wal.Record as record_kind
use z1kv.Wal.Record.{WalEntry, frame, encode_record}
use z1kv.Wal.Replay.RoundTrip.{encode_all}
use z1kv.Wal.Writer.{Inner, content_of, latest_writer}
use z1kv.Wal.Writer.Holds.{Holds, Single}
use z1kv.Wal.Recovery.Reading.{largest_commit, live_ops}
use z1kv.Wal.Checkpoint.{load_latest, recovery_baseline}
use z1kv.Engine.{Engine}
use z1kv.Engine.Transactions.{begin_txn}
use z1kv.Engine.Open.{DataDir, open_with_config}
use z1kv.Engine.Open.Aborted.{all_work, left-Readable}
use z1kv.Engine.Open.Recovers.{Opened, baseline, open_with_config-Opened}
use z1kv.Engine.Open.Reuse.{next_id, open_with_config-reuses}
use z1kv.Engine.Open.Saved.{Fits}
use z1kv.Engine.Open.Saves.{baseline-fits}
use z1kv.Tests.Durable.{no_checkpoints}
use z1kv.Tests.Engine.{world, settings, commit_codec}

-- The lock that the opening takes.
abbrev pub lock : EngineLock
lock = record { file = 3; path = [] }

-- A log with one segment of the bytes.
abbrev pub segment : Bytes → Inner
segment bytes = record {
  files = (0, bytes) ∷ [];
  position = length bytes;
  prev_segments_bytes = 0;
  seq = 0;
  segment_bytes = length bytes;
  queue = [];
  max_file_size = 1000;
  unsynced = false;
  calls = 0;
}

abbrev pub holding : Bytes → DataDir
holding bytes = record {
  segments = (0, bytes) ∷ [];
  l2_files = [];
  l3_files = [];
  checkpoints = no_checkpoints;
}

pub nothing_saved : Fits world.state_codec no_checkpoints
unfolding load_latest
nothing_saved = λ s h. absurd (cc (h))

abbrev begun_1 : Bytes
begun_1 = frame commit_codec (1 ∷ [])

abbrev pub committed_1 : Bytes
committed_1 = begun_1 ++ frame commit_codec (1 ∷ 1 ∷ 50 ∷ [])

abbrev one_begun : List WalEntry
one_begun = record { txn_id = 1; record_of = record_kind.begin } ∷ []

abbrev pub one_committed : List WalEntry
one_committed =
    record { txn_id = 1; record_of = record_kind.begin }
    ∷ record { txn_id = 1; record_of = record_kind.commit 1 50 }
    ∷ []

begun_1-Holds : Holds commit_codec one_begun (segment begun_1)
unfolding encode_all encode_record content_of get frame
begun_1-Holds = record { at_end = refl; encoded = refl }

pub committed_1-Holds : Holds commit_codec one_committed (segment committed_1)
unfolding encode_all encode_record content_of get frame
committed_1-Holds = record { at_end = refl; encoded = refl }

pub few_ids : largest_commit one_committed 0 < u64_mod - 1
unfolding largest_commit
few_ids = omega arith

pub one_segment : Single (segment committed_1)
unfolding content_of get
one_segment = refl

begun_segment : Single (segment begun_1)
unfolding content_of get
begun_segment = refl

fit :
    Distinct (baseline world settings 9 one_committed (holding committed_1)).1
    × ((k v : ℕ)
        → get k (baseline world settings 9 one_committed (holding committed_1)).1 ≡ some v
        → k ≤ (baseline world settings 9 one_committed (holding committed_1)).0)
    × ((baseline world settings 9 one_committed (holding committed_1)).0 < u64_mod - 1)
fit = baseline-fits world no_checkpoints nothing_saved

open_with_config-Opened_example :
    (e : Engine) × (open_with_config world (all_work lock) settings 9 (holding committed_1) ≡ ok e)
    × Opened world one_committed (holding committed_1) e
open_with_config-Opened_example =
    open_with_config-Opened world settings 9 one_committed (holding committed_1) (all_work lock)
      (latest_writer world.wal_config ((0, committed_1) ∷ []))
      (left-Readable world one_committed (segment committed_1) (holding committed_1) lock
        committed_1-Holds one_segment)
      fit.0 fit.1 fit.2 few_ids

no_id : (baseline world settings 9 one_begun (holding begun_1)).0 ≡ 0
unfolding recovery_baseline load_latest
no_id = refl

next_is_1 : next_id world settings 9 one_begun (holding begun_1) ≡ 1
unfolding largest_commit
next_is_1 = rw (no_id) refl

live_1 : live_ops 1 one_begun none ≡ some []
unfolding live_ops
live_1 = refl

open_with_config-reuses_example :
    (e : Engine) × (open_with_config world (all_work lock) settings 9 (holding begun_1) ≡ ok e)
    × ((begin_txn e).1 ≡ ok 1)
    × (after : Engine) × (open_with_config world (all_work lock) settings 9 (holding committed_1)
        ≡ ok after)
    × (get_commit_ts 1 after.mvcc ≡ some 1)
open_with_config-reuses_example =
    open_with_config-reuses world settings 9 one_begun (holding begun_1) 1 next_is_1 (all_work lock)
      (all_work lock) (latest_writer world.wal_config ((0, begun_1) ∷ []))
      (latest_writer world.wal_config ((0, committed_1) ∷ [])) (holding committed_1) 50 []
      (left-Readable world one_begun (segment begun_1) (holding begun_1) lock begun_1-Holds
        begun_segment)
      nothing_saved (omega arith) live_1
      (left-Readable world one_committed (segment committed_1) (holding committed_1) lock
        committed_1-Holds one_segment)
      nothing_saved few_ids
