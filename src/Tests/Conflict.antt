-- ===== src/Tests/Conflict.antt =====
-- A commit in conflict on a small database.
use z1kv.Common.{◌+◌, ◌-◌, ◌<◌, length, ◌≤◌, ◌≡◌, refl, true, false, none, some, [], ◌∷◌, arith}
use z1kv.Common.Map.{get}
use z1kv.Common.Bytes.{Bytes, bytes_eq}
use z1kv.Errors.{ok, err, mvcc_conflict, ssi}
use z1kv.Mvcc.Types.{new_with_config, insert_bytes}
use z1kv.Mvcc.Manager.{get_begin_ts}
use z1kv.Store.Mem.{new_store}
use z1kv.Wal.Record as record_kind
use z1kv.Wal.Record.{WalRecord, WalEntry, Codec}
use z1kv.Wal.Writer.{append_durable, latest_writer}
use z1kv.Wal.Writer.Appends.{no_faults, nothing_torn}
use z1kv.Engine.{Engine}
use z1kv.Engine.Open.Aborted.{all_work, sound_disk, commit_entry, commit-aborted-revives}
use z1kv.Wal.Writer.Holds.{Holds, Single}
use z1kv.Wal.Writer.{Inner, content_of, sync_policy, sync_each}
use z1kv.Wal.Record.{frame, encode_record}
use z1kv.Wal.Replay.RoundTrip.{encode_all}
use z1kv.Mvcc.Manager.{begin_txn as mvcc_begin, record_write, commit_txn, get_commit_ts}
use z1kv.Wal.Recovery.Reading.{largest_commit, live_ops}
use z1kv.Mvcc.Prune.{u64_mod}
use z1kv.Tests.Opening.{lock, holding, nothing_saved}
use z1kv.Engine.Transactions.{commit}
use z1kv.Engine.Open.{open_with_config}
use z1kv.Tests.Wal.{config}
use z1kv.Tests.Engine.{world, settings, engine, clock, commit_codec}

-- Transactions 1 and 2 are active and have written one key, and the log holds the begin of the first.
abbrev log_of_one : Inner
log_of_one =
    (append_durable no_faults nothing_torn commit_codec config 1 record_kind.begin
      (latest_writer config [])).0

abbrev conflicting : Engine
conflicting = record engine {
  mvcc =
      record_write 2 (107 ∷ [])
        (mvcc_begin 2 (record_write 1 (107 ∷ []) (mvcc_begin 1 engine.mvcc).0)).0;
  layers = record engine.layers { l1 = record engine.layers.l1 { wal = some log_of_one } };
  txn_counter = 3;
}

-- The bytes of the commit of transaction 1.
abbrev commit_bytes : Bytes
commit_bytes = frame commit_codec (1 ∷ 1 ∷ 50 ∷ [])

fits : Unit {0}
unfolding insert_bytes bytes_eq append_durable encode_record latest_writer commit_txn record_write
    mvcc_begin get get_begin_ts frame live_ops content_of new_with_config new_store sync_policy
    encode_all
fits = tt

log_of_one-Holds :
    Holds commit_codec (record { txn_id = 1; record_of = record_kind.begin } ∷ []) log_of_one
unfolding fits
log_of_one-Holds = record { at_end = refl; encoded = refl }

encoded_one : encode_record commit_codec (commit_entry world clock 1) ≡ ok commit_bytes
unfolding fits
encoded_one = refl

room_for_one : log_of_one.segment_bytes + length commit_bytes ≤ log_of_one.max_file_size
unfolding fits
room_for_one = omega arith

active_one : get_begin_ts 1 conflicting.mvcc ≡ some 1
unfolding fits
active_one = refl

refused_one : (commit_txn 1 50 60 61 conflicting.mvcc).1 ≡ err (mvcc_conflict (ssi 1 2 false true))
unfolding fits
refused_one = refl

live_one : live_ops 1 (record { txn_id = 1; record_of = record_kind.begin } ∷ []) none ≡ some []
unfolding fits
live_one = refl

synced : sync_policy world.wal_config ≡ sync_each
unfolding fits
synced = refl

one_file : Single log_of_one
unfolding fits
one_file = refl

few_ids :
    largest_commit
      (record { txn_id = 1; record_of = record_kind.begin } ∷ commit_entry world clock 1 ∷ [])
      0
    < u64_mod - 1
unfolding largest_commit
few_ids = omega arith

commit-aborted-revives_example :
    ((commit (sound_disk world) clock 1 conflicting).1 ≡ err (mvcc_conflict (ssi 1 2 false true)))
    × (after : Inner) × ((commit (sound_disk world) clock 1 conflicting).0.layers.l1.wal
        ≡ some after)
    × (reopened : Engine) × (open_with_config
          (sound_disk world)
          (all_work lock)
          settings
          90
          (record (holding []) { segments = after.files })
        ≡ ok reopened)
    × (get_commit_ts 1 reopened.mvcc ≡ some 1)
commit-aborted-revives_example =
    commit-aborted-revives world clock 1 conflicting log_of_one
      (record { txn_id = 1; record_of = record_kind.begin } ∷ []) [] commit_bytes 1
      (mvcc_conflict (ssi 1 2 false true)) settings 90 (holding []) lock refl refl synced
      log_of_one-Holds one_file encoded_one room_for_one active_one refused_one live_one
      nothing_saved few_ids
