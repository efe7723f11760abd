-- ===== src/Wal/Replay.antt =====
-- `replay_all` and `read_one_record` of wal/mod.rs, over the bytes of the segment files. A file is
-- read from the front: the bytes behind the read position stand for the file, so `offset` and
-- `file_len` of the source appear by their difference. A `read` of a regular file is taken to fill
-- the buffer as far as the file goes.
pub mod RoundTrip
pub mod Damage
use z1kv.Common.{
  ℕ, zero, suc, ◌+◌, ◌≡◌, ◌<◌, ◌*◌, Bool, true, false, not, ◌&&◌, ◌||◌, Option, none, some, List,
  [], ◌∷◌, ◌++◌, map, length, take, drop, ltb, leb, ◌==◌, if◌then◌else◌,
}
use z1kv.Common.Map.{Map}
use z1kv.Common.Bytes.{Bytes, from_le_bytes}
use z1kv.Errors.{
  Result, ok, err, ◌>>=◌, Z1Error, deserialize, truncated_header, truncated_payload,
  length_over_limit, crc_mismatch, decode_failed, internal, IoKind, checked,
}
use z1kv.Wal.Record.{WalEntry, Codec, max_wal_record_len}

-- The payload's length in the header; a short read leaves zeros.
unfoldable pub declared_len : Bytes → ℕ
unfolding from_le_bytes
declared_len file = from_le_bytes (take 4 file)

unfoldable pub stored_crc : Bytes → ℕ
unfolding from_le_bytes
stored_crc file = from_le_bytes (take 4 (drop 4 file))

-- The entry, and the bytes behind it, of a file that is not at its end.
unfoldable pub parse_record : Codec → Bytes → Result (Option (WalEntry × Bytes))
unfolding declared_len stored_crc
parse_record c file =
    let len = declared_len file in
    let body = drop 8 file in
    let payload = take len body in
    if ltb (length file) 8
    then err (deserialize truncated_header)
    else if ltb max_wal_record_len len
    then err (deserialize length_over_limit)
    else if ltb (length body) len
    then err (deserialize truncated_payload)
    else if not (c.crc payload == stored_crc file)
    then err (deserialize crc_mismatch)
    else elim (c.decode payload) [
      | none ↦ err (deserialize decode_failed)
      | some entry ↦ ok (some (entry, drop len body))
    ]

unfoldable pub read_one_record : Codec → Bytes → Result (Option (WalEntry × Bytes))
unfolding parse_record
read_one_record c [] = ok none
read_one_record c (b ∷ bs) = parse_record c (b ∷ bs)

-- A half-written record: the header is short or declares more than the file has, within the limit.
unfoldable pub structurally_truncated : Bytes → Bool
unfolding declared_len
structurally_truncated file =
    (ltb (length file) 8 || ltb (length file) (8 + declared_len file))
    && not (ltb max_wal_record_len (declared_len file))

-- The loop over one segment. The fuel is more than the number of bytes; `internal` marks its end,
-- which is not reached.
unfoldable pub replay_segment : Codec → ℕ → (is_last : Bool) → Bytes → Result (List WalEntry)
unfolding read_one_record structurally_truncated
replay_segment c zero is_last file = err internal
replay_segment c (suc fuel) is_last file = elim (read_one_record c file) [
  | ok none ↦ ok []
  | ok (some (entry, rest)) ↦ (do es ← replay_segment c fuel is_last rest; ok (entry ∷ es))
  | err e ↦ if is_last && structurally_truncated file then ok [] else err e
]

-- The loop over the segments. `calls n` is an error of opening or reading the segment: those at a half-written
-- record, which is dropped, are none.
unfoldable pub replay_segments :
    (calls : ℕ → Option IoKind) → Codec → ℕ → List Bytes → Result (List WalEntry)
unfolding replay_segment
replay_segments calls c n [] = ok []
replay_segments calls c n (file ∷ []) =
    checked (calls n) (replay_segment c (suc (length file)) true file)
replay_segments calls c n (file ∷ file' ∷ files) = do
  es ← checked (calls n) (replay_segment c (suc (length file)) false file)
  es' ← replay_segments calls c (suc n) (file' ∷ files)
  ok (es ++ es')

-- `sort_unstable` on the numbers of the segments.
unfoldable pub insert_segment : ℕ × Bytes → Map Bytes → Map Bytes
insert_segment x [] = x ∷ []
insert_segment x (y ∷ ys) =
    let rest = insert_segment x ys in if leb x.0 y.0 then x ∷ y ∷ ys else y ∷ rest

unfoldable pub in_order : Map Bytes → Map Bytes
unfolding insert_segment
in_order [] = []
in_order (x ∷ xs) = insert_segment x (in_order xs)

-- `replay_all`: the directory is read, then its segments in the order of their numbers.
unfoldable pub replay_all : (calls : ℕ → Option IoKind) → Codec → Map Bytes → Result (List WalEntry)
unfolding replay_segments in_order
replay_all calls c files =
    checked (calls 0) (replay_segments calls c 1 (map (λ f. f.1) (in_order files)))
