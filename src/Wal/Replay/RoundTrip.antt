-- ===== src/Wal/Replay/RoundTrip.antt =====
-- `encode_record` and `replay_all` of wal/mod.rs, on undamaged segments.
use z1kv.Common.{
  ℕ, zero, suc, ◌+◌, ◌≡◌, ◌≤◌, ◌<◌, ◌∙◌, refl, sym, ap, Bool, some, List, [], ◌∷◌, ◌++◌, length,
  drop, ==_refl, Option-cases, inl, inr, length-append, take-append, drop-append, arith,
}
use mathlib.Core.List.{append_assoc, append-nil}
use z1kv.Common.Bytes.{Bytes, to_le_bytes, from_le_bytes-to_le_bytes}
use z1kv.Errors.{Result, ok, err, ◌>>=◌, >>=-eq-ok}
use z1kv.Wal.Record.{WalEntry, Codec, max_wal_record_len, frame, encode_record}
use z1kv.Wal.Replay.{declared_len, parse_record, stored_crc, read_one_record, replay_segment}

ok-nil : (r : Result (List WalEntry)) → r ≡ (r >>= λ es. ok es)
ok-nil (ok es) = refl
ok-nil (err e) = refl

module _ (c : Codec) where
  -- What the header of a framed payload declares.
  pub declared_len-frame :
      (payload rest : Bytes)
      → length payload ≤ max_wal_record_len
      → declared_len (frame c payload ++ rest) ≡ length payload
  unfolding declared_len frame to_le_bytes
  declared_len-frame payload rest h = from_le_bytes-to_le_bytes (length payload) (omega arith)

  pub stored_crc-frame :
      (payload rest : Bytes) → stored_crc (frame c payload ++ rest) ≡ c.crc payload
  unfolding stored_crc frame to_le_bytes
  stored_crc-frame payload rest = from_le_bytes-to_le_bytes (c.crc payload) (c.crc-lt payload)

  pub body-frame : (payload rest : Bytes) → drop 8 (frame c payload ++ rest) ≡ payload ++ rest
  unfolding frame to_le_bytes
  body-frame payload rest = refl

  pub length-frame :
      (payload rest : Bytes) → length (frame c payload ++ rest) ≡ 8 + (length payload + length rest)
  unfolding frame to_le_bytes
  length-frame payload rest = omega (arith, length-append {0} payload rest)

  pub read-parse : (file : Bytes) → 0 < length file → read_one_record c file ≡ parse_record c file
  unfolding read_one_record
  read-parse [] h = absurd (omega arith)
  read-parse (b ∷ bs) h = refl

  parse_record-frame :
      (payload rest : Bytes) (e : WalEntry)
      → length payload ≤ max_wal_record_len
      → c.decode payload ≡ some e
      → parse_record c (frame c payload ++ rest) ≡ ok (some (e, rest))
  unfolding parse_record
  parse_record-frame payload rest e h d =
      rw
        (
          declared_len-frame payload rest h,
          stored_crc-frame payload rest,
          body-frame payload rest,
          length-frame payload rest,
          take-append payload rest,
          length-append payload rest,
          d,
          declared_len-frame payload rest h,
          body-frame payload rest,
          drop-append payload rest,
        )
        (ground (arith, ==_refl (c.crc payload)))

  -- A framed payload is read back, and the reader stands behind it.
  read_one_record-frame :
      (payload rest : Bytes) (e : WalEntry)
      → length payload ≤ max_wal_record_len
      → c.decode payload ≡ some e
      → read_one_record c (frame c payload ++ rest) ≡ ok (some (e, rest))
  read_one_record-frame payload rest e h d =
      read-parse (frame c payload ++ rest) (omega (arith, length-frame payload rest))
      ∙ parse_record-frame payload rest e h d

  -- What `encode_record` returns is a frame that the reader accepts.
  pub encode_record-ok :
      (e : WalEntry) (b : Bytes)
      → encode_record c e ≡ ok b
      → (payload : Bytes) × (b ≡ frame c payload)
        × (c.decode payload ≡ some e)
        × (length payload ≤ max_wal_record_len)
  unfolding encode_record
  encode_record-ok e b h = elim (Option-cases (c.encode e)) [
    | inl gone ↦ absurd (ground arith)
    | inr (payload, found) ↦ (payload, ground arith, c.decode-encode e payload found, ground arith)
  ]

  -- The bytes of a log: the records' encodings, one after the other.
  unfoldable pub encode_all : List WalEntry → Result Bytes
  encode_all [] = ok []
  encode_all (e ∷ es) = do b ← encode_record c e; bs ← encode_all es; ok (b ++ bs)

  pub encode_all-cons :
      (e : WalEntry) (es : List WalEntry) (log : Bytes)
      → encode_all (e ∷ es) ≡ ok log
      → (b : Bytes) × (bs : Bytes) × (encode_record c e ≡ ok b)
        × (encode_all es ≡ ok bs)
        × (log ≡ b ++ bs)
  unfolding encode_all
  encode_all-cons e es log h =
      let (b, hb, k) =
        >>=-eq-ok (encode_record c e) (λ b. encode_all es >>= λ bs. ok (b ++ bs)) h in
      let (bs, hbs, same) = >>=-eq-ok (encode_all es) (λ bs. ok (b ++ bs)) k in (b, bs, hb, hbs, cc)

  replay_segment-step :
      (fuel : ℕ) (last : Bool) (payload rest : Bytes) (e : WalEntry) (es : List WalEntry)
      (r : Result (List WalEntry))
      → length payload ≤ max_wal_record_len
      → c.decode payload ≡ some e
      → replay_segment c fuel last rest ≡ (r >>= λ es'. ok (es ++ es'))
      → replay_segment c (suc fuel) last (frame c payload ++ rest)
        ≡ (r >>= λ es'. ok (e ∷ es ++ es'))
  unfolding replay_segment
  replay_segment-step fuel last payload rest e es (ok es') h d k =
      rw (read_one_record-frame payload rest e h d, replay_segment) (rw k)
  replay_segment-step fuel last payload rest e es (err x) h d k =
      rw (read_one_record-frame payload rest e h d, replay_segment) (rw k)

  replay_segment-nil : (last : Bool) (fuel : ℕ) → 0 < fuel → replay_segment c fuel last [] ≡ ok []
  unfolding replay_segment read_one_record
  replay_segment-nil last zero h = absurd (omega arith)
  replay_segment-nil last (suc fuel) h = refl

  -- A tail behind the encodings of some records.
  pub replay_segment-append :
      (fuel : ℕ) (last : Bool) (es : List WalEntry) (log tail : Bytes) (r : Result (List WalEntry))
      → encode_all es ≡ ok log
      → length (log ++ tail) < fuel
      → ((f : ℕ) → length tail < f → replay_segment c f last tail ≡ r)
      → replay_segment c fuel last (log ++ tail) ≡ (r >>= λ es'. ok (es ++ es'))
  unfolding encode_all
  replay_segment-append zero last es log tail r h lt k = absurd (omega arith)
  replay_segment-append (suc fuel) last [] [] tail r h lt k = k (suc fuel) lt ∙ ok-nil r
  replay_segment-append (suc fuel) last [] (b ∷ bs) tail r h lt k = cc
  replay_segment-append (suc fuel) last (e ∷ es) log tail r h lt k =
      let (b, bs, hb, hbs, same) = encode_all-cons e es log h in
      let (payload, framed, dec, small) = encode_record-ok e b hb in
      rw (same, framed, append_assoc)
        (replay_segment-step fuel last payload (bs ++ tail) e es r small dec (
          replay_segment-append fuel last es bs tail r hbs
            (omega (
              arith,
              length-frame payload bs,
              length-append {0} log tail,
              length-append {0} bs tail,
              ap length same,
              ap (λ (x : Bytes). length (x ++ bs)) framed,
            ))
            k))

  -- Round trip: replaying the encodings of any records, one after the other in a segment, gives these
  -- records, whether or not the segment is the last.
  pub replay_segment-encode_all :
      (fuel : ℕ) (last : Bool) (es : List WalEntry) (log : Bytes)
      → encode_all es ≡ ok log
      → length log < fuel
      → replay_segment c fuel last log ≡ ok es
  replay_segment-encode_all fuel last es log h lt =
      ap (replay_segment c fuel last) (sym (append-nil log))
      ∙ replay_segment-append fuel last es log [] (ok []) h
          (omega (arith, length-append {0} log [])) (replay_segment-nil last)
      ∙ ap ok (append-nil es)
