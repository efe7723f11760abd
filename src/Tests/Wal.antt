-- ===== src/Tests/Wal.antt =====
-- Runs of the write-ahead log with a small encoding.
use z1kv.Common.{
  ℕ, ◌≡◌, ◌≢◌, ◌<◌, ◌+◌, ◌%◌, ◌^◌, refl, true, false, Option, none, some, List, [], ◌∷◌, ◌++◌,
  length, take, drop, ◌==◌, suc, if◌then◌else◌, arith,
}
use z1kv.Common.Bytes.{Bytes}
use z1kv.Errors.{ok, err, deserialize, crc_mismatch}
use z1kv.Wal.Record.{WalRecord, WalEntry, begin, commit, rollback, Codec, encode_record}
use z1kv.Wal.Replay.{declared_len, stored_crc, replay_segment}
use z1kv.Wal.Replay.RoundTrip.{encode_all, replay_segment-encode_all}
use z1kv.Wal.Replay.Damage.{replay_segment-drops_torn_tail, replay_segment-corrupt}
use z1kv.Wal.Writer.{
  WalConfig, Inner, sync_each, group_commit_strict, content_of, append_encoded, append_durable,
  sync_policy, batch_size, highest_seq, latest_writer, open_writer,
}
use z1kv.Wal.Writer.Appends.{AtEnd, no_faults, nothing_torn, append_durable-synced}
use z1kv.Wal.Writer.Reopen.{reopen-append-loses_first}

program : Unit {0}
unfolding encode_record encode_all declared_len stored_crc append_encoded append_durable sync_policy
    batch_size highest_seq content_of latest_writer open_writer
program = tt

-- An encoding of some of the records, and the sum as a checksum.
abbrev pub encode_put : ℕ → ℕ → Bytes → Option Bytes → Option Bytes
encode_put id cf key none = some (id ∷ 4 ∷ cf ∷ key)
encode_put id cf key (some value) = none

abbrev pub encode : WalEntry → Option Bytes
encode e = elim e.record_of [
  | begin ↦ some (e.txn_id ∷ 1 ∷ [])
  | rollback ↦ some (e.txn_id ∷ 3 ∷ [])
  | WalRecord.put cf key value ↦ encode_put e.txn_id cf key value
  | _ ↦ none
]

abbrev pub decode_put : ℕ → Bytes → Option WalEntry
decode_put id [] = none
decode_put id (cf ∷ key) = some (record { txn_id = id; record_of = WalRecord.put cf key none })

abbrev pub decode : Bytes → Option WalEntry
decode [] = none
decode (id ∷ []) = none
decode (id ∷ tag ∷ bs) =
    if tag == 1
    then some (record { txn_id = id; record_of = begin })
    else if tag == 4
    then decode_put id bs
    else some (record { txn_id = id; record_of = rollback })

decode-encode_of :
    (id : ℕ) (r : WalRecord) (b : Bytes)
    → encode (record { txn_id = id; record_of = r }) ≡ some b
    → decode b ≡ some (record { txn_id = id; record_of = r })
decode-encode_of id begin b h = ground arith
decode-encode_of id rollback b h = ground arith
decode-encode_of id (WalRecord.put cf key none) b h = ground arith
decode-encode_of id (WalRecord.put cf key (some value)) b h = cc
decode-encode_of id (commit ts ins) b h = cc
decode-encode_of id (WalRecord.checkpoint n) b h = cc

pub decode-encode : (e : WalEntry) (b : Bytes) → encode e ≡ some b → decode b ≡ some e
decode-encode e b h = decode-encode_of e.txn_id e.record_of b h

abbrev pub sum : Bytes → ℕ
sum [] = 0
sum (b ∷ bs) = b + sum bs

abbrev pub codec : Codec
codec = record {
  encode = encode;
  decode = decode;
  crc = λ b. sum b % 2 ^ 32;
  decode-encode = decode-encode;
  crc-lt = λ b. omega arith;
}

abbrev entry : ℕ → WalRecord → WalEntry
entry id r = record { txn_id = id; record_of = r }

abbrev pub begun : Bytes
begun = 2 ∷ 0 ∷ 0 ∷ 0 ∷ 6 ∷ 0 ∷ 0 ∷ 0 ∷ 5 ∷ 1 ∷ []

abbrev pub rolled_back : Bytes
rolled_back = 2 ∷ 0 ∷ 0 ∷ 0 ∷ 8 ∷ 0 ∷ 0 ∷ 0 ∷ 5 ∷ 3 ∷ []

abbrev pub log : Bytes
log = begun ++ rolled_back

abbrev records : List WalEntry
records = entry 5 begin ∷ entry 5 rollback ∷ []

begun_encoded : encode_record codec (entry 5 begin) ≡ ok begun
unfolding program
begun_encoded = refl

rolled_back_encoded : encode_record codec (entry 5 rollback) ≡ ok rolled_back
unfolding program
rolled_back_encoded = refl

log_encoded : encode_all codec records ≡ ok log
unfolding program
log_encoded = refl

replay_segment-encode_all_example : replay_segment codec 30 false log ≡ ok records
replay_segment-encode_all_example =
    replay_segment-encode_all codec 30 false records log log_encoded (omega arith)

replay_segment-drops_torn_tail_example :
    replay_segment codec 40 true (log ++ take 9 begun) ≡ ok records
replay_segment-drops_torn_tail_example =
    replay_segment-drops_torn_tail codec 40 9 records (entry 5 begin) log begun log_encoded
      begun_encoded (omega arith) (omega arith)

-- The first record with a bit of its payload turned.
abbrev corrupted : Bytes
corrupted = 2 ∷ 0 ∷ 0 ∷ 0 ∷ 6 ∷ 0 ∷ 0 ∷ 0 ∷ 4 ∷ 1 ∷ []

corrupted_len : declared_len corrupted ≡ 2
unfolding program
corrupted_len = refl

corrupted_crc : codec.crc (take (declared_len corrupted) (drop 8 corrupted)) ≢ stored_crc corrupted
unfolding program
corrupted_crc = λ h. omega arith

replay_segment-corrupt_example :
    replay_segment codec 40 true (log ++ corrupted) ≡ err (deserialize crc_mismatch)
replay_segment-corrupt_example =
    replay_segment-corrupt codec 40 true records log corrupted log_encoded
      (omega (arith, corrupted_len)) (omega (arith, corrupted_len)) corrupted_crc (omega arith)

abbrev pub config : WalConfig
config = record {
  max_file_size = 1000;
  enabled = true;
  group_commit = some (record { max_batch_size = 4; policy = sync_each });
}

abbrev batched : WalConfig
batched = record config {
  group_commit = some (record { max_batch_size = 4; policy = group_commit_strict });
}

abbrev pub writer : Inner
writer = record {
  files = (0, log) ∷ [];
  position = 20;
  prev_segments_bytes = 0;
  seq = 0;
  segment_bytes = 20;
  queue = [];
  max_file_size = 1000;
  unsynced = false;
  calls = 0;
}

writer-AtEnd : AtEnd writer
unfolding program
writer-AtEnd = refl

-- The state after a durable append.
abbrev appended : Inner
appended = record writer {
  files = (0, log ++ begun) ∷ [];
  position = 30;
  segment_bytes = 30;
  calls = 3;
}

append_begin : append_durable no_faults nothing_torn codec config 5 begin writer ≡ (appended, ok tt)
unfolding program
append_begin = refl

each : sync_policy config ≡ sync_each
unfolding program
each = refl

append_durable-synced_example : appended.unsynced ≡ false
append_durable-synced_example =
    append_durable-synced no_faults nothing_torn codec config 5 begin writer appended refl each
      append_begin

queued : sync_policy batched ≡ group_commit_strict
unfolding program
queued = refl

batch_open : 1 < batch_size batched
unfolding program
batch_open = omega arith

log_latest : highest_seq ((0, log) ∷ []) ≡ some 0
unfolding program
log_latest = refl

log_here : content_of 0 ((0, log) ∷ []) ≡ log
unfolding program
log_here = refl

reopen-append-loses_first_example :
    (s s' : Inner) × (open_writer no_faults config ((0, log) ∷ []) ≡ ok s)
    × (append_encoded no_faults nothing_torn rolled_back s ≡ (s', ok tt))
    × (replay_segment codec (suc (length (content_of 0 s'.files))) true (content_of 0 s'.files)
        ≡ ok (entry 5 rollback ∷ entry 5 rollback ∷ []))
reopen-append-loses_first_example =
    reopen-append-loses_first codec config ((0, log) ∷ []) 0 (entry 5 begin) (entry 5 rollback)
      (entry 5 rollback ∷ []) log begun rolled_back true log_latest log_encoded log_here
      begun_encoded rolled_back_encoded refl (omega arith)
