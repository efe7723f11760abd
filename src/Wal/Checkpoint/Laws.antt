-- ===== src/Wal/Checkpoint/Laws.antt =====
-- What `load_latest` finds behind a `write`, whatever happens to its two files.
use z1kv.Common.{
  ℕ, ◌+◌, ◌^◌, ◌<◌, ◌≡◌, ◌∙◌, refl, ap, sym, true, false, Option, none, some, [], ◌∷◌, length, take,
  drop, ◌==◌, ==_refl, ==_iff, Option-cases, Bool-cases, ◌⊎◌, inl, inr, arith,
}
use z1kv.Common.Map.{Map, get, insert, get-insert}
use z1kv.Common.Bytes.{
  Bytes, to_le_bytes, from_le_bytes, length-to_le_bytes, from_le_bytes-to_le_bytes,
}
use z1kv.Errors.{Result, ok, err, Z1Error}
use z1kv.Effects.{◌>>◌}
use z1kv.DurableWriter.{Written, landed, refused}
use z1kv.Store.Disk.Reads.{Result-cases}
use z1kv.Wal.Checkpoint.{
  CheckpointState, StateCodec, CheckpointDir, envelope, envelope_header, ckpt_magic, ckpt_version,
  encode_checkpoint, put_file, put_checkpoint, put_latest, write, read_envelope, load_latest,
}

le_word : (n : ℕ) → n < 2 ^ 64 → from_le_bytes (to_le_bytes 8 n) ≡ n
unfolding to_le_bytes from_le_bytes
le_word n h = omega arith

take_whole : (bs : Bytes) → take (length bs) bs ≡ bs
take_whole [] = refl
take_whole (b ∷ bs) = ap (λ (t : Bytes). b ∷ t) (take_whole bs)

module _ (c : StateCodec) where
  module _ (payload : Bytes) (small : length payload < 2 ^ 32) where
    len_word : from_le_bytes (take 4 (drop 9 (envelope c payload))) ≡ length payload
    unfolding envelope to_le_bytes
    len_word = from_le_bytes-to_le_bytes (length payload) small

    crc_word : from_le_bytes (take 4 (drop 5 (envelope c payload))) ≡ c.crc32 payload
    unfolding envelope to_le_bytes
    crc_word = from_le_bytes-to_le_bytes (c.crc32 payload) (c.crc32-lt payload)

    body : drop envelope_header (envelope c payload) ≡ payload
    unfolding envelope to_le_bytes
    body = refl

    length-envelope : length (envelope c payload) ≡ envelope_header + length payload
    unfolding envelope to_le_bytes
    length-envelope = omega arith

    heads :
        (take 4 (envelope c payload) ≡ ckpt_magic)
        × (take 1 (drop 4 (envelope c payload)) ≡ ckpt_version ∷ [])
    unfolding envelope to_le_bytes
    heads = (refl, refl)

    read_envelope-envelope :
        (s : CheckpointState)
        → c.decode_state payload ≡ some s
        → read_envelope c (envelope c payload) ≡ some s
    unfolding read_envelope
    read_envelope-envelope s d =
        rw
          (
            length-envelope,
            heads.0,
            heads.1,
            len_word,
            crc_word,
            body,
            take_whole payload,
            d,
            ==_refl (c.crc32 payload),
          )
          (ground arith)

  encode_checkpoint-read :
      (state : CheckpointState) (bytes : Bytes)
      → encode_checkpoint c state ≡ ok bytes
      → read_envelope c bytes ≡ some state
  unfolding encode_checkpoint
  encode_checkpoint-read state bytes h = elim (Option-cases (c.encode_state state)) [
    | inl gone ↦ absurd (ground arith)
    | inr (payload, found) ↦
        let small : length payload < 2 ^ 32 = ground arith in
        let same : bytes ≡ envelope c payload = ground arith in
        rw same (
          read_envelope-envelope payload small state
            (c.decode_state-encode_state state payload found))
  ]

  -- The checkpoint that the id points to.
  unfoldable pointed : ℕ → Map Bytes → Option CheckpointState
  unfolding get read_envelope
  pointed id files = elim (get id files) [ none ↦ none | some bytes ↦ read_envelope c bytes ]

  load_latest-pointed :
      (d : CheckpointDir) (id_bytes : Bytes)
      → d.latest ≡ some id_bytes
      → length id_bytes ≡ 8
      → load_latest c d ≡ pointed (from_le_bytes id_bytes) d.checkpoints
  unfolding load_latest pointed
  load_latest-pointed d id_bytes h k = ground arith

  load_latest-nowhere :
      (d : CheckpointDir)
      → (d.latest ≡ none)
        ⊎ ((id_bytes : Bytes) × (d.latest ≡ some id_bytes) × ((length id_bytes == 8) ≡ false))
      → load_latest c d ≡ none
  unfolding load_latest
  load_latest-nowhere d (inl gone) = ground arith
  load_latest-nowhere d (inr (id_bytes, found, odd)) = ground arith

  module _ (state : CheckpointState) (bytes : Bytes)
      (encoded : encode_checkpoint c state ≡ ok bytes) (d : CheckpointDir) where
    abbrev id : ℕ
    id = state.checkpoint_id

    pointed_new : pointed id (insert id bytes d.checkpoints) ≡ some state
    unfolding pointed
    pointed_new = ground (
      arith,
      get-insert id id bytes d.checkpoints,
      ==_refl id,
      encode_checkpoint-read state bytes encoded,
    )

    pointed_old :
        (j : ℕ)
        → (id == j) ≡ false
        → pointed j (insert id bytes d.checkpoints) ≡ pointed j d.checkpoints
    unfolding pointed
    pointed_old j other = ground (arith, get-insert id j bytes d.checkpoints)

    -- Both files are in place.
    both_new : id < 2 ^ 64 → load_latest c (put_latest id (put_checkpoint id bytes d)) ≡ some state
    both_new small =
        load_latest-pointed (put_latest id (put_checkpoint id bytes d)) (to_le_bytes 8 id) refl
          (length-to_le_bytes 8 id)
        ∙ ap (λ (j : ℕ). pointed j (insert id bytes d.checkpoints)) (le_word id small)
        ∙ pointed_new

    -- The pointer is the old one.
    file_new :
        (load_latest c (put_checkpoint id bytes d) ≡ load_latest c d)
        ⊎ (load_latest c (put_checkpoint id bytes d) ≡ some state)
    file_new = elim (Option-cases d.latest) [
      | inl gone ↦ inl (
          load_latest-nowhere (put_checkpoint id bytes d) (inl gone)
          ∙ sym (load_latest-nowhere d (inl gone)))
      | inr (w, found) ↦ elim (Bool-cases (length w == 8)) [
        | inr odd ↦ inl (
            load_latest-nowhere (put_checkpoint id bytes d) (inr (w, found, odd))
            ∙ sym (load_latest-nowhere d (inr (w, found, odd))))
        | inl even ↦
            let len = (==_iff (length w) 8).0 even in
            elim (Bool-cases (id == from_le_bytes w)) [
              | inr other ↦ inl (
                  load_latest-pointed (put_checkpoint id bytes d) w found len
                  ∙ pointed_old (from_le_bytes w) other
                  ∙ sym (load_latest-pointed d w found len))
              | inl same ↦ inr (
                  load_latest-pointed (put_checkpoint id bytes d) w found len
                  ∙ ap (λ (j : ℕ). pointed j (insert id bytes d.checkpoints))
                      (sym ((==_iff id (from_le_bytes w)).0 same))
                  ∙ pointed_new)
            ]
      ]
    ]

  -- What a write of a checkpoint leaves to load.
  pub record Checkpointed (state : CheckpointState) (d : CheckpointDir)
      (out : CheckpointDir × Result (Unit {0})) : Type 0 where
    pub either : (load_latest c out.0 ≡ load_latest c d) ⊎ (load_latest c out.0 ≡ some state)
    pub done : out.1 ≡ ok tt → load_latest c out.0 ≡ some state

  kept_old :
      (state : CheckpointState) (d : CheckpointDir) (x : Z1Error) → Checkpointed state d (d, err x)
  kept_old state d x = record { either = inl refl; done = λ h. absurd (cc) }

  -- However the writes of the two files end, the checkpoint that is loaded afterwards is the one that was
  -- loaded before or the written one, and it is the written one when the write succeeds.
  pub write-Checkpointed :
      (state : CheckpointState) (file pointer : Written) (d : CheckpointDir)
      → state.checkpoint_id < 2 ^ 64
      → Checkpointed state d (write c file pointer state d)
  unfolding write put_file
  write-Checkpointed state file pointer d small = elim (Result-cases (encode_checkpoint c state)) [
    | inr (x, fails) ↦ rw (fails, write) (kept_old state d x)
    | inl (bytes, encoded) ↦ rw (encoded, write) (files file pointer bytes encoded)
  ]
    where
      files :
          (file pointer : Written) (bytes : Bytes)
          → encode_checkpoint c state ≡ ok bytes
          → Checkpointed state d (
              (do
                put_file (put_checkpoint state.checkpoint_id bytes) file
                put_file (put_latest state.checkpoint_id) pointer)
                d)
      files (refused false x) pointer bytes e = kept_old state d x
      files (refused true x) pointer bytes e = record {
        either = file_new state bytes e d;
        done = λ h. absurd (cc);
      }
      files landed (refused false x) bytes e = record {
        either = file_new state bytes e d;
        done = λ h. absurd (cc);
      }
      files landed (refused true x) bytes e = record {
        either = inr (both_new state bytes e d small);
        done = λ h. absurd (cc);
      }
      files landed landed bytes e = record {
        either = inr (both_new state bytes e d small);
        done = λ h. both_new state bytes e d small;
      }
