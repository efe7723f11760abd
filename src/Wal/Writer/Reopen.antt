-- ===== src/Wal/Writer/Reopen.antt =====
-- What a writer that was opened on an existing log does to it.
use z1kv.Common.{
  ℕ, suc, ◌+◌, ◌≡◌, ◌≤◌, ◌∙◌, refl, ap, Bool, true, false, some, Option-cases, inl, inr, List, [],
  ◌∷◌, ◌++◌, length, drop, ltb, drop-append, arith,
}
use z1kv.Common.Map.{Map, insert}
use z1kv.Common.Bytes.{Bytes}
use z1kv.Errors.{ok}
use z1kv.Wal.Record.{WalEntry, Codec, encode_record}
use z1kv.Wal.Replay.{replay_segment}
use z1kv.Wal.Replay.RoundTrip.{encode_all, encode_all-cons, replay_segment-encode_all}
use z1kv.Wal.Writer.{
  WalConfig, Inner, write_at, content_of, put_bytes, write_all, append_encoded, highest_seq,
  latest_writer, open_latest_segment, open_writer,
}
use z1kv.Wal.Writer.Appends.{no_faults, nothing_torn, content_of-insert}

-- A writer opened on a log appends from the front of the latest segment: the bytes of the next
-- append replace as many bytes at the segment's beginning.
pub open-append-overwrites :
    (config : WalConfig) (files : Map Bytes) (seq : ℕ) (bytes : Bytes)
    → highest_seq files ≡ some seq
    → length (content_of seq files) + length bytes ≤ config.max_file_size
    → (s' : Inner) × (append_encoded no_faults nothing_torn bytes (latest_writer config files)
        ≡ (s', ok tt))
      × (content_of seq s'.files ≡ bytes ++ drop (length bytes) (content_of seq files))
unfolding append_encoded write_all put_bytes write_at latest_writer
open-append-overwrites config files seq bytes top room =
    let opened : Inner = record {
      files = files;
      position = 0;
      prev_segments_bytes = 0;
      seq = seq;
      segment_bytes = length (content_of seq files);
      queue = [];
      max_file_size = config.max_file_size;
      unsynced = false;
      calls = 0;
    } in
    let found : latest_writer config files ≡ opened = rw (top, latest_writer) refl in
    let fits : ltb config.max_file_size (length (content_of seq files) + length bytes) ≡ false =
      ground arith in
    let content : Bytes = bytes ++ drop (0 + length bytes) (content_of seq files) in
    (
      record opened {
        files = insert seq content files;
        position = 0 + length bytes;
        unsynced = true;
        calls = 1;
        segment_bytes = length (content_of seq files) + length bytes;
      },
      rw found (rw fits),
      content_of-insert seq content files
          ∙ ap (λ n. bytes ++ drop n (content_of seq files)) (omega arith),
    )

-- Opening where no call of the file system fails.
pub open_writer-succeeds :
    (config : WalConfig) (files : Map Bytes)
    → open_writer no_faults config files ≡ ok (latest_writer config files)
unfolding open_writer open_latest_segment
open_writer-succeeds config files = elim (Option-cases (highest_seq files)) [
  | inl empty ↦ rw (empty, open_latest_segment) refl
  | inr (seq, found) ↦ rw (found, open_latest_segment) refl
]

encode_all_of :
    (c : Codec) (e : WalEntry) (es : List WalEntry) (b bs : Bytes)
    → encode_record c e ≡ ok b
    → encode_all c es ≡ ok bs
    → encode_all c (e ∷ es) ≡ ok (b ++ bs)
unfolding encode_all
encode_all_of c e es b bs h k = rw (h, k)

-- Reopening loses a record: if the latest segment of a log holds some records, a writer is opened on
-- it and appends a record whose encoding is as long as the first one's, then the append succeeds and
-- the segment replays, with no error, to the new record followed by the others: the first record is
-- gone and the new one stands before the older ones.
pub reopen-append-loses_first :
    (c : Codec) (config : WalConfig) (files : Map Bytes) (seq : ℕ) (first new : WalEntry)
    (es : List WalEntry) (log b bytes : Bytes) (last : Bool)
    → highest_seq files ≡ some seq
    → encode_all c (first ∷ es) ≡ ok log
    → content_of seq files ≡ log
    → encode_record c first ≡ ok b
    → encode_record c new ≡ ok bytes
    → length bytes ≡ length b
    → length log + length bytes ≤ config.max_file_size
    → (s s' : Inner) × (open_writer no_faults config files ≡ ok s)
      × (append_encoded no_faults nothing_torn bytes s ≡ (s', ok tt))
      × (replay_segment c (suc (length (content_of seq s'.files))) last (content_of seq s'.files)
          ≡ ok (new ∷ es))
reopen-append-loses_first c config files seq first new es log b bytes last top enc here hb hn same
      room =
    let (b', bs, hb', hbs, split) = encode_all-cons c first es log enc in
    let (s', done, over) = open-append-overwrites config files seq bytes top (rw here room) in
    let b-eq : b' ≡ b = cc (hb, hb') in
    let after : content_of seq s'.files ≡ bytes ++ bs =
      over
      ∙ ap (λ (x : Bytes). bytes ++ drop (length bytes) x) (here ∙ split)
      ∙ rw (b-eq, same) (ap (λ (x : Bytes). bytes ++ x) (drop-append b bs)) in
    (
      latest_writer config files,
      s',
      open_writer-succeeds config files,
      done,
      rw after (
          replay_segment-encode_all c (suc (length (bytes ++ bs))) last (new ∷ es) (bytes ++ bs)
            (encode_all_of c new es bytes bs hn hbs) (omega arith)),
    )
