-- ===== src/Wal/Checkpoint.antt =====
-- wal/checkpoint.rs: the baseline of a recovery, in a file behind an envelope, and the pointer to the
-- latest one. `postcard` and `crc32fast` are parameters. A write ends as `write_durable` leaves its
-- path; a read that fails is as a file that is not there.
pub mod Laws
use z1kv.Common.{
  ℕ, suc, ◌+◌, ◌^◌, ◌<◌, ◌≡◌, ◌-◌, Bool, true, false, not, ◌||◌, Option, none, some, List, [], ◌∷◌,
  ◌++◌, length, take, drop, ltb, ◌==◌, if◌then◌else◌,
}
use z1kv.Common.Map.{Map, get, insert}
use z1kv.Common.Bytes.{Bytes, bytes_eq, to_le_bytes, from_le_bytes}
use z1kv.Errors.{Result, ok, err, Z1Error, IoKind, serialization, encode_failed, payload_too_large}
use z1kv.Effects.{Exec, pure, continue, ◌>>=◌, ◌>>◌}
use z1kv.DurableWriter.{Written, landed, refused}
use z1kv.Wal.Record.{Codec, checkpoint}
use z1kv.Wal.Writer.{Inner, WalConfig, append_durable, truncate_before}

pub record CheckpointState : Type 0 where
  pub checkpoint_id : ℕ
  pub committed_txn : ℕ
  pub timestamp_ms : ℕ
  pub committed_history : Map ℕ

-- `postcard` at `CheckpointState`, and `crc32fast::hash`.
pub record StateCodec : Type 0 where
  pub encode_state : CheckpointState → Option Bytes
  pub decode_state : Bytes → Option CheckpointState
  pub crc32 : Bytes → ℕ
  pub decode_state-encode_state :
      (s : CheckpointState) (b : Bytes) → encode_state s ≡ some b → decode_state b ≡ some s
  pub crc32-lt : (b : Bytes) → crc32 b < 2 ^ 32

-- The `_LATEST` file, and the checkpoint files by their ids.
pub record CheckpointDir : Type 0 where
  pub latest : Option Bytes
  pub checkpoints : Map Bytes

-- `CKPT`
abbrev pub ckpt_magic : Bytes
ckpt_magic = 67 ∷ 75 ∷ 80 ∷ 84 ∷ []

abbrev pub ckpt_version : ℕ
ckpt_version = 1

abbrev pub envelope_header : ℕ
envelope_header = 4 + 1 + 4 + 4

unfoldable pub envelope : StateCodec → Bytes → Bytes
unfolding to_le_bytes
envelope c payload =
    ckpt_magic
    ++ (ckpt_version
        ∷ (to_le_bytes 4 (c.crc32 payload) ++ (to_le_bytes 4 (length payload) ++ payload)))

unfoldable pub encode_checkpoint : StateCodec → CheckpointState → Result Bytes
unfolding envelope
encode_checkpoint c state = elim (c.encode_state state) [
  | none ↦ err (serialization encode_failed)
  | some payload ↦
      if ltb (2 ^ 32 - 1) (length payload)
      then err (serialization payload_too_large)
      else ok (envelope c payload)
]

-- `write_durable` of a file whose effect is `replace`.
unfoldable pub put_file : (CheckpointDir → CheckpointDir) → Written → Exec CheckpointDir (Unit {0})
put_file replace landed d = (replace d, ok tt)
put_file replace (refused replaced x) d = ((if replaced then replace d else d), err x)

abbrev pub put_checkpoint : ℕ → Bytes → CheckpointDir → CheckpointDir
put_checkpoint id bytes d = record d { checkpoints = insert id bytes d.checkpoints }

abbrev pub put_latest : ℕ → CheckpointDir → CheckpointDir
put_latest id d = record d { latest = some (to_le_bytes 8 id) }

-- The file first, then the pointer to it.
unfoldable pub write :
    StateCodec → (file pointer : Written) → CheckpointState → Exec CheckpointDir (Unit {0})
unfolding encode_checkpoint put_file
write c file pointer state d = elim (encode_checkpoint c state) [
  | err x ↦ (d, err x)
  | ok bytes ↦
      (do
        put_file (put_checkpoint state.checkpoint_id bytes) file
        put_file (put_latest state.checkpoint_id) pointer)
        d
]

-- The payload behind an intact envelope, decoded.
unfoldable pub read_envelope : StateCodec → Bytes → Option CheckpointState
unfolding bytes_eq from_le_bytes
read_envelope c bytes =
    let len = from_le_bytes (take 4 (drop 9 bytes)) in
    let payload = take len (drop envelope_header bytes) in
    if ltb (length bytes) envelope_header
    then none
    else if not (bytes_eq (take 4 bytes) ckpt_magic)
        || not (bytes_eq (take 1 (drop 4 bytes)) (ckpt_version ∷ []))
    then none
    else if ltb (length bytes) (envelope_header + len)
    then none
    else if not (c.crc32 payload == from_le_bytes (take 4 (drop 5 bytes)))
    then none
    else c.decode_state payload

unfoldable pub load_latest : StateCodec → CheckpointDir → Option CheckpointState
unfolding read_envelope get from_le_bytes
load_latest c d = elim d.latest [
  | none ↦ none
  | some id_bytes ↦
      if not (length id_bytes == 8)
      then none
      else elim (get (from_le_bytes id_bytes) d.checkpoints) [
        | none ↦ none
        | some bytes ↦ read_envelope c bytes
      ]
]

unfoldable pub recovery_baseline : StateCodec → CheckpointDir → Option (ℕ × Map ℕ)
unfolding load_latest
recovery_baseline c d = elim (load_latest c d) [
  | none ↦ none
  | some s ↦ some (s.committed_txn, s.committed_history)
]

-- The writer and the directory of the checkpoints.
abbrev pub Durable : Type 0
Durable = Inner × CheckpointDir

abbrev pub on_log : {A : Type 0} → Exec Inner A → Exec Durable A
on_log m (log, d) = (((m log).0, d), (m log).1)

abbrev pub on_dir : {A : Type 0} → Exec CheckpointDir A → Exec Durable A
on_dir m (log, d) = ((log, (m d).0), (m d).1)

module _ (faults : ℕ → Option IoKind) (torn : ℕ → ℕ) (codec : Codec) (config : WalConfig)
    (c : StateCodec) where
  -- `CheckpointManager::checkpoint`
  unfoldable pub run_checkpoint :
      (file pointer : Written) → CheckpointState → Exec Durable (Unit {0})
  unfolding write append_durable truncate_before
  run_checkpoint file pointer state = do
    on_dir (write c file pointer state)
    on_log (
        append_durable faults torn codec config state.committed_txn
          (checkpoint state.checkpoint_id))
    λ s. on_log (truncate_before faults torn s.0.seq) s
    pure tt
