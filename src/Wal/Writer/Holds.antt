-- ===== src/Wal/Writer/Holds.antt =====
-- What the open segment of a writer holds, and what a replay of it reads.
use z1kv.Common.{
  arith, ==_refl, ℕ, suc, ◌+◌, ◌≡◌, ◌≤◌, ◌<◌, ◌∙◌, refl, sym, ap, Bool, true, false, List, [], ◌∷◌,
  ◌++◌, length,
}
use mathlib.Core.List.{append-nil, append_assoc}
use z1kv.Common.Bytes.{Bytes}
use z1kv.Errors.{ok}
use z1kv.Wal.Record.{WalRecord, WalEntry, Codec, encode_record}
use z1kv.Common.Map.{Map, insert, get}
use z1kv.Wal.Writer.{
  latest_writer, highest_seq, sync_each, WalConfig, Inner, content_of, flush_and_sync_file,
  sync_all, io_call, append_synced, append_durable, sync_policy,
}
use z1kv.Wal.Writer.Appends.{AtEnd, no_faults, nothing_torn, append_encoded-AtEnd}
use z1kv.Wal.Replay.{replay_segment, replay_segments, replay_all, in_order, insert_segment}
use z1kv.Wal.Replay.RoundTrip.{encode_all, encode_all-cons, replay_segment-encode_all}

-- The open segment is the only one.
abbrev pub Single : Inner → Type 0
Single s = s.files ≡ (s.seq, content_of s.seq s.files) ∷ []

pub record Holds (c : Codec) (es : List WalEntry) (s : Inner) : Type 0 where
  pub at_end : AtEnd s
  pub encoded : encode_all c es ≡ ok (content_of s.seq s.files)

single_insert :
    (q : ℕ) (new old : Bytes) (files : Map Bytes)
    → files ≡ (q, old) ∷ []
    → insert q new files ≡ (q, content_of q (insert q new files)) ∷ []
unfolding insert content_of get
single_insert q new old files one = rw (one) (ground (arith, ==_refl q))

module _ (c : Codec) where
  encode_all-append :
      (es : List WalEntry) (e : WalEntry) (log b : Bytes)
      → encode_all c es ≡ ok log
      → encode_record c e ≡ ok b
      → encode_all c (es ++ e ∷ []) ≡ ok (log ++ b)
  unfolding encode_all
  encode_all-append [] e [] b h k = rw (k) (ap (λ (x : Bytes). ok x) (append-nil b))
  encode_all-append [] e (y ∷ ys) b h k = cc
  encode_all-append (x ∷ es) e log b h k =
      let (d, ds, hd, hds, same) = encode_all-cons c x es log h in
      rw (hd, encode_all-append es e ds b hds k, same, append_assoc) refl

  -- A write that syncs, into a segment with room and without faults.
  pub append_synced-Holds :
      (es : List WalEntry) (e : WalEntry) (b : Bytes) (s : Inner)
      → Holds c es s
      → encode_record c e ≡ ok b
      → s.segment_bytes + length b ≤ s.max_file_size
      → (s' : Inner) × (append_synced no_faults nothing_torn c e s ≡ (s', ok tt))
        × Holds c (es ++ e ∷ []) s'
        × (Single s → Single s')
  unfolding append_synced flush_and_sync_file sync_all io_call
  append_synced-Holds es e b s w k room =
      let (t, done, end, content, others, seq, files) = append_encoded-AtEnd b s w.at_end room in
      (
        record t { unsynced = false; calls = suc (suc t.calls) },
        rw (k) (rw (done) refl),
        record {
          at_end = end;
          encoded =
              encode_all-append es e (content_of s.seq s.files) b w.encoded k
              ∙ ap (λ (x : Bytes). ok x) (sym content ∙ ap (λ q. content_of q t.files) (sym seq));
        },
        λ one. rw (seq) (
            rw (files) (
              single_insert s.seq (content_of s.seq s.files ++ b) (content_of s.seq s.files) s.files
                one)),
      )

  -- What `append_durable` under a policy that syncs each write leaves behind its return.
  pub append_durable-Holds :
      (config : WalConfig) (id : ℕ) (r : WalRecord) (es : List WalEntry) (b : Bytes) (s : Inner)
      → config.enabled ≡ true
      → sync_policy config ≡ sync_each
      → Holds c es s
      → encode_record c (record { txn_id = id; record_of = r }) ≡ ok b
      → s.segment_bytes + length b ≤ s.max_file_size
      → (s' : Inner) × (append_durable no_faults nothing_torn c config id r s ≡ (s', ok tt))
        × Holds c (es ++ record { txn_id = id; record_of = r } ∷ []) s'
        × (Single s → Single s')
  unfolding append_durable
  append_durable-Holds config id r es b s on each w k room =
      let (s', ends, after, one) =
        append_synced-Holds es (record { txn_id = id; record_of = r }) b s w k room in
      (s', rw (on, each, append_durable) ends, after, one)

  -- A replay of the segment reads what it holds.
  pub replay_segment-Holds :
      (es : List WalEntry) (s : Inner)
      → Holds c es s
      → (fuel : ℕ) (last : Bool) → length (content_of s.seq s.files) < fuel
      → replay_segment c fuel last (content_of s.seq s.files) ≡ ok es
  replay_segment-Holds es s w fuel last lt =
      replay_segment-encode_all c fuel last es (content_of s.seq s.files) w.encoded lt

  -- A replay of the directory, where no call of the file system fails.
  pub replay_all-Holds :
      (es : List WalEntry) (s : Inner)
      → Holds c es s
      → Single s
      → replay_all no_faults c s.files ≡ ok es
  unfolding replay_all replay_segments in_order insert_segment
  replay_all-Holds es s w one =
      rw (one, replay_all)
        (replay_segment-Holds es s w (suc (length (content_of s.seq s.files))) true (omega arith))

-- A writer that opens on a directory of one segment leaves it as it is.
pub files-latest_writer :
    (config : WalConfig) (s : Inner) → Single s → (latest_writer config s.files).files ≡ s.files
unfolding latest_writer highest_seq
files-latest_writer config s one = rw (one, latest_writer) one
