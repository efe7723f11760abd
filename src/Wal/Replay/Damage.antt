-- ===== src/Wal/Replay/Damage.antt =====
-- `replay_all` of wal/mod.rs on damaged segments.
use z1kv.Common.{
  ℕ, zero, suc, ◌+◌, ◌≡◌, ◌≢◌, ◌≤◌, ◌<◌, ◌∙◌, refl, sym, ap, subst, Bool, true, false, ◌&&◌, List,
  [], ◌++◌, length, take, drop, ltb, ==_iff, Bool-cases, inl, inr, length-append, take_comm,
  take_all, length-take, length-take-le, length-drop, if◌then◌else◌, arith,
}
use mathlib.Core.List.{append-nil}
use z1kv.Common.Bytes.{Bytes, from_le_bytes, from_le_bytes-take-le}
use z1kv.Errors.{
  Result, ok, err, Z1Error, deserialize, crc_mismatch, truncated_header, truncated_payload,
}
use z1kv.Wal.Record.{WalEntry, Codec, max_wal_record_len, frame, encode_record}
use z1kv.Wal.Replay.{
  declared_len, stored_crc, parse_record, read_one_record, structurally_truncated, replay_segment,
}
use z1kv.Wal.Replay.RoundTrip.{
  declared_len-frame, length-frame, read-parse, encode_record-ok, encode_all, replay_segment-append,
}

torn_marked :
    (file : Bytes)
    → declared_len file ≤ max_wal_record_len
    → (8 ≤ length file → length file < 8 + declared_len file)
    → structurally_truncated file ≡ true
unfolding structurally_truncated
torn_marked file small short = elim (Bool-cases (ltb (length file) 8)) [
  | inl tiny ↦ ground arith
  | inr room ↦ ground (arith, short (ground arith))
]

no_drop :
    (last : Bool)
    → ◌≡◌ {A = Result (List WalEntry)}
        (if last && false then ok [] else err (deserialize crc_mismatch))
        (err (deserialize crc_mismatch))
no_drop last = ground arith

module _ (c : Codec) where
  declared_len_whole :
      (payload : Bytes)
      → length payload ≤ max_wal_record_len
      → declared_len (frame c payload) ≡ length payload
  declared_len_whole payload h =
      ap declared_len (sym (append-nil (frame c payload))) ∙ declared_len-frame c payload [] h

  length_whole : (payload : Bytes) → length (frame c payload) ≡ 8 + length payload
  length_whole payload =
      omega (arith, length-frame c payload [], length-append {0} (frame c payload) [])

  -- A prefix of a frame declares at most the payload's length.
  declared_len-take :
      (n : ℕ) (payload : Bytes)
      → length payload ≤ max_wal_record_len
      → declared_len (take n (frame c payload)) ≤ length payload
  unfolding declared_len
  declared_len-take n payload h = omega (
    arith,
    ap from_le_bytes (take_comm 4 n (frame c payload)),
    from_le_bytes-take-le n (take 4 (frame c payload)),
    declared_len_whole payload h,
  )

  -- With four bytes or more it declares just that.
  declared_len-take_past :
      (n : ℕ) (payload : Bytes)
      → length payload ≤ max_wal_record_len
      → 4 ≤ n
      → declared_len (take n (frame c payload)) ≡ length payload
  unfolding declared_len
  declared_len-take_past n payload h past =
      ap from_le_bytes (
        take_comm 4 n (frame c payload)
        ∙ take_all n (take 4 (frame c payload)) (omega (arith, length-take-le 4 (frame c payload))))
      ∙ declared_len_whole payload h

  -- A torn record cannot be parsed.
  parse_record-torn :
      (file : Bytes)
      → declared_len file ≤ max_wal_record_len
      → (8 ≤ length file → length file < 8 + declared_len file)
      → (x : Z1Error) × (parse_record c file ≡ err x)
  unfolding parse_record
  parse_record-torn file small short = elim (Bool-cases (ltb (length file) 8)) [
    | inl tiny ↦ (deserialize truncated_header, rw tiny)
    | inr room ↦ (deserialize truncated_payload, ground (arith, length-drop 8 file))
  ]

  -- The last segment's replay ends quietly at a record that is torn off.
  replay_segment-torn :
      (fuel n : ℕ) (payload : Bytes)
      → length payload ≤ max_wal_record_len
      → n < length (frame c payload)
      → length (take n (frame c payload)) < fuel
      → replay_segment c fuel true (take n (frame c payload)) ≡ ok []
  unfolding replay_segment read_one_record
  replay_segment-torn zero n payload small torn lt = absurd (omega arith)
  replay_segment-torn (suc fuel) zero payload small torn lt = refl
  replay_segment-torn (suc fuel) (suc n) payload small torn lt =
      let file : Bytes = take (suc n) (frame c payload) in
      let len : length file ≡ suc n = length-take (suc n) (frame c payload) (omega arith) in
      let (x, bad) =
        parse_record-torn file (omega (arith, declared_len-take (suc n) payload small)) (λ room.
          omega (
            arith,
            length_whole payload,
            declared_len-take_past (suc n) payload small (omega arith),
          )) in
      let marked : structurally_truncated file ≡ true =
        torn_marked file (omega (arith, declared_len-take (suc n) payload small)) (λ room. omega (
          arith,
          length_whole payload,
          declared_len-take_past (suc n) payload small (omega arith),
        )) in
      rw (read-parse c file (omega arith) ∙ bad, replay_segment, marked)

  -- A record that a crash tore off at any byte is dropped: replaying the last segment gives exactly
  -- the records before it.
  pub replay_segment-drops_torn_tail :
      (fuel n : ℕ) (es : List WalEntry) (e : WalEntry) (log b : Bytes)
      → encode_all c es ≡ ok log
      → encode_record c e ≡ ok b
      → n < length b
      → length (log ++ take n b) < fuel
      → replay_segment c fuel true (log ++ take n b) ≡ ok es
  replay_segment-drops_torn_tail fuel n es e log b h hb torn lt =
      let (payload, framed, dec, small) = encode_record-ok c e b hb in
      replay_segment-append c fuel true es log (take n b) (ok []) h lt (λ f room.
        subst
          (λ (x : Bytes).
            n < length x → length (take n x) < f → replay_segment c f true (take n x) ≡ ok [])
          (sym framed) (λ t l. replay_segment-torn f n payload small t l) torn room)
      ∙ ap ok (append-nil es)

  intact_mismatch :
      (file : Bytes)
      → declared_len file ≤ max_wal_record_len
      → 8 + declared_len file ≤ length file
      → c.crc (take (declared_len file) (drop 8 file)) ≢ stored_crc file
      → (parse_record c file ≡ err (deserialize crc_mismatch))
        × (structurally_truncated file ≡ false)
  unfolding parse_record structurally_truncated
  intact_mismatch file small room bad = (
    ground (
      arith,
      length-drop 8 file,
      bad,
      ==_iff (c.crc (take (declared_len file) (drop 8 file))) (stored_crc file),
    ),
    ground arith,
  )

  corrupt_step :
      (last : Bool) (file : Bytes)
      → declared_len file ≤ max_wal_record_len
      → 8 + declared_len file ≤ length file
      → c.crc (take (declared_len file) (drop 8 file)) ≢ stored_crc file
      → (f : ℕ) → length file < f
      → replay_segment c f last file ≡ err (deserialize crc_mismatch)
  unfolding replay_segment
  corrupt_step last file small room bad zero l = absurd (omega arith)
  corrupt_step last file small room bad (suc f) l =
      let (fails, whole) = intact_mismatch file small room bad in
      rw (read-parse c file (omega arith) ∙ fails, replay_segment, whole) (no_drop last)

  -- A record whose structure is intact and whose payload does not have the stored checksum stops the
  -- replay with that error, in the last segment as in any other, whatever records stand before it.
  pub replay_segment-corrupt :
      (fuel : ℕ) (last : Bool) (es : List WalEntry) (log file : Bytes)
      → encode_all c es ≡ ok log
      → declared_len file ≤ max_wal_record_len
      → 8 + declared_len file ≤ length file
      → c.crc (take (declared_len file) (drop 8 file)) ≢ stored_crc file
      → length (log ++ file) < fuel
      → replay_segment c fuel last (log ++ file) ≡ err (deserialize crc_mismatch)
  replay_segment-corrupt fuel last es log file h small room bad lt =
      replay_segment-append c fuel last es log file (err (deserialize crc_mismatch)) h lt
        (corrupt_step last file small room bad)
