-- ===== src/Wal/Writer.antt =====
-- `WalWriter` of wal/mod.rs on a platform other than Windows. The directory is a map from segment
-- numbers to file contents; the open file is the segment `seq` with its write position. `faults`
-- gives the outcome of each call of the file system, in order: `some` is the error of that call,
-- and a failing write leaves `torn` bytes of its buffer. The time of the last flush is left out.
pub mod Appends
pub mod Reopen
pub mod Holds
use z1kv.Common.{
  ℕ, zero, suc, ◌+◌, ◌<◌, max, Bool, true, false, ◌&&◌, Option, none, some, List, [], ◌∷◌, ◌++◌,
  length, take, drop, ltb, leb, ◌==◌, if◌then◌else◌,
}
use z1kv.Common.Map.{Map, get, insert, remove}
use z1kv.Common.Bytes.{Bytes}
use z1kv.Errors.{Result, ok, err, IoKind, io, wal, checked}
use z1kv.Effects.{Exec, pure, raise, lift, continue, ◌>>=◌, ◌>>◌}
use z1kv.Wal.Record.{WalRecord, WalEntry, Codec, encode_record}

pub data SyncPolicy : Type 0 where
  sync_each group_commit_strict flush_only : SyncPolicy

pub record GroupCommitConfig : Type 0 where
  pub max_batch_size : ℕ
  pub policy : SyncPolicy

pub record WalConfig : Type 0 where
  pub max_file_size : ℕ
  pub enabled : Bool
  pub group_commit : Option GroupCommitConfig

pub record Inner : Type 0 where
  pub files : Map Bytes
  pub position : ℕ
  pub prev_segments_bytes : ℕ
  pub seq : ℕ
  pub segment_bytes : ℕ
  pub queue : List WalEntry
  pub max_file_size : ℕ
  -- Bytes of the open file have been written since its last `sync_all`.
  pub unsynced : Bool
  pub calls : ℕ

-- `write_all` at the write position of a file.
unfoldable pub write_at : ℕ → Bytes → Bytes → Bytes
write_at position bytes content =
    take position content ++ (bytes ++ drop (position + length bytes) content)

unfoldable pub content_of : ℕ → Map Bytes → Bytes
unfolding get
content_of seq files = elim (get seq files) [ none ↦ [] | some b ↦ b ]

unfoldable pub sync_policy : WalConfig → SyncPolicy
sync_policy config = elim config.group_commit [ none ↦ group_commit_strict | some c ↦ c.policy ]

unfoldable pub batch_size : WalConfig → ℕ
batch_size config = elim config.group_commit [ none ↦ 100 | some c ↦ c.max_batch_size ]

module _ (faults : ℕ → Option IoKind) (torn : ℕ → ℕ) where
  -- The next call of the file system.
  unfoldable pub io_call : Exec Inner (Unit {0})
  io_call s = elim (faults s.calls) [
    | none ↦ (record s { calls = suc s.calls }, ok tt)
    | some kind ↦ (record s { calls = suc s.calls }, err (io kind))
  ]

  unfoldable pub put_bytes : Bytes → Inner → Inner
  unfolding write_at content_of insert
  put_bytes bytes s = record s {
    files = insert s.seq (write_at s.position bytes (content_of s.seq s.files)) s.files;
    position = s.position + length bytes;
    unsynced = true;
  }

  -- `file.write_all(bytes)`
  unfoldable pub write_all : Bytes → Exec Inner (Unit {0})
  unfolding put_bytes
  write_all bytes s = elim (faults s.calls) [
    | none ↦ (put_bytes bytes (record s { calls = suc s.calls }), ok tt)
    | some kind ↦
        (put_bytes (take (torn s.calls) bytes) (record s { calls = suc s.calls }), err (io kind))
  ]

  unfoldable pub sync_all : Exec Inner (Unit {0})
  unfolding io_call
  sync_all = do io_call; λ s. (record s { unsynced = false }, ok tt)

  -- The next segment is created, or emptied if it is there.
  unfoldable pub rotate : Exec Inner (Unit {0})
  unfolding sync_all io_call insert
  rotate = do
    sync_all
    λ s. (record s { prev_segments_bytes = s.prev_segments_bytes + s.segment_bytes }, ok tt)
    io_call
    λ s. (
      record s {
        files = insert (suc s.seq) [] s.files;
        position = 0;
        seq = suc s.seq;
        segment_bytes = 0;
      },
      ok tt,
    )

  unfoldable pub append_encoded : Bytes → Exec Inner (Unit {0})
  unfolding rotate write_all
  append_encoded bytes s =
      (do
        (if ltb s.max_file_size (s.segment_bytes + length bytes) && ltb 0 s.segment_bytes
            then rotate
            else pure tt)
        write_all bytes
        λ s. (record s { segment_bytes = s.segment_bytes + length bytes }, ok tt))
        s

  -- `file.flush()` and `file.sync_all()`
  unfoldable pub flush_and_sync_file : Exec Inner (Unit {0})
  unfolding io_call sync_all
  flush_and_sync_file = do io_call; sync_all

  -- The loop over the entries of the directory: an error leaves the segments that are removed by then.
  unfoldable pub remove_before : ℕ → Map Bytes → Exec Inner ℕ
  unfolding io_call remove
  remove_before pos [] = pure 0
  remove_before pos ((seq, b) ∷ files) =
      let rest = remove_before pos files in
      if leb pos seq then rest else (do
        io_call
        λ s. (record s { files = remove seq s.files }, ok tt)
        n ← rest
        pure (n + 1))

  unfoldable pub truncate_before : ℕ → Exec Inner ℕ
  unfolding remove_before io_call
  truncate_before pos s = elim s.queue [
    | [] ↦ (do io_call; remove_before pos s.files) s
    | e ∷ es ↦ (s, err wal)
  ]

  module _ (c : Codec) where
    -- The loop over the entries taken from the queue.
    unfoldable pub append_entries : List WalEntry → Exec Inner (Unit {0})
    unfolding append_encoded encode_record
    append_entries [] = pure tt
    append_entries (e ∷ es) = do
      bytes ← lift (encode_record c e)
      append_encoded bytes
      append_entries es

    unfoldable pub flush_queue : Exec Inner (Unit {0})
    unfolding append_entries flush_and_sync_file
    flush_queue s = elim s.queue [
      | [] ↦ (s, ok tt)
      | e ∷ es ↦ (do append_entries (e ∷ es); flush_and_sync_file) (record s { queue = [] })
    ]

    -- `WalWriter::append`
    unfoldable pub append : WalConfig → ℕ → WalRecord → Exec Inner (Unit {0})
    unfolding append_encoded encode_record
    append config txn_id r =
        if config.enabled
        then (do
          bytes ← lift (encode_record c (record { txn_id = txn_id; record_of = r }))
          append_encoded bytes)
        else pure tt

    unfoldable pub append_queued : ℕ → WalEntry → Exec Inner (Unit {0})
    unfolding flush_queue
    append_queued size entry s =
        let s' : Inner = record s { queue = s.queue ++ entry ∷ [] } in
        (if leb size (length s'.queue) then flush_queue else pure tt) s'

    unfoldable pub append_synced : WalEntry → Exec Inner (Unit {0})
    unfolding append_encoded flush_and_sync_file encode_record
    append_synced entry = do
      bytes ← lift (encode_record c entry)
      append_encoded bytes
      flush_and_sync_file

    -- `WalWriter::append_durable`
    unfoldable pub append_durable : WalConfig → ℕ → WalRecord → Exec Inner (Unit {0})
    unfolding append_queued append_synced sync_policy batch_size
    append_durable config txn_id r =
        if config.enabled
        then (let entry : WalEntry = record { txn_id = txn_id; record_of = r } in
            elim (sync_policy config) [
              | group_commit_strict ↦ append_queued (batch_size config) entry
              | sync_each ↦ append_synced entry
              | flush_only ↦ append_synced entry
            ])
        else pure tt

    -- `WalWriter::flush_pending`: the number of records flushed.
    unfoldable pub flush_pending : Exec Inner ℕ
    unfolding flush_queue
    flush_pending s = (do flush_queue; pure (length s.queue)) s

    -- `WalWriter::flush_and_sync`
    unfoldable pub flush_and_sync : Exec Inner (Unit {0})
    unfolding flush_queue flush_and_sync_file
    flush_and_sync = do flush_queue; flush_and_sync_file

-- The highest segment number of the directory.
unfoldable pub highest_seq : Map Bytes → Option ℕ
highest_seq [] = none
highest_seq ((seq, b) ∷ files) = elim (highest_seq files) [
  | none ↦ some seq
  | some n ↦ some (max seq n)
]

-- The writer at the latest segment: `OpenOptions` without `append` opens a file with the write position 0.
unfoldable pub latest_writer : WalConfig → Map Bytes → Inner
unfolding highest_seq content_of insert
latest_writer config files = elim (highest_seq files) [
  | none ↦ record {
    files = insert 0 [] files;
    position = 0;
    prev_segments_bytes = 0;
    seq = 0;
    segment_bytes = 0;
    queue = [];
    max_file_size = config.max_file_size;
    unsynced = false;
    calls = 0;
  }
  | some seq ↦ record {
    files = files;
    position = 0;
    prev_segments_bytes = 0;
    seq = seq;
    segment_bytes = length (content_of seq files);
    queue = [];
    max_file_size = config.max_file_size;
    unsynced = false;
    calls = 0;
  }
]

-- `open_latest_segment`: the directory is read, the segment opened, and its length asked for if it was there.
unfoldable pub open_latest_segment :
    (calls : ℕ → Option IoKind) → WalConfig → Map Bytes → Result Inner
unfolding highest_seq latest_writer
open_latest_segment calls config files = checked (calls 1) (
    checked (calls 2) (elim (highest_seq files) [
      | none ↦ ok (latest_writer config files)
      | some seq ↦ checked (calls 3) (ok (latest_writer config files))
    ]))

-- `WalWriter::open`. `calls` gives the outcomes of its calls of the file system, in order; a failing one
-- leaves the segments as they are.
unfoldable pub open_writer : (calls : ℕ → Option IoKind) → WalConfig → Map Bytes → Result Inner
unfolding open_latest_segment
open_writer calls config files = checked (calls 0) (open_latest_segment calls config files)
