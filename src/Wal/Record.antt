-- ===== src/Wal/Record.antt =====
-- The records of wal/mod.rs and their encoding. `postcard` and `crc32fast` are parameters.
use z1kv.Common.{ℕ, ◌≡◌, ◌<◌, ◌^◌, ◌*◌, Option, none, some, ◌++◌, length, ltb, if◌then◌else◌}
use z1kv.Common.Bytes.{Bytes, to_le_bytes}
use z1kv.Errors.{Result, ok, err, serialization, encode_failed, record_too_large}

pub data WalRecord : Type 0 where
  put : (cf : ℕ) (key : Bytes) (value : Option Bytes) → WalRecord
  begin : WalRecord
  commit : (commit_ts inserted_at : ℕ) → WalRecord
  rollback : WalRecord
  checkpoint : (checkpoint_id : ℕ) → WalRecord

pub record WalEntry : Type 0 where
  pub txn_id : ℕ
  pub record_of : WalRecord

-- `postcard::to_stdvec` and `from_bytes` at `WalEntry`, and `crc32fast::hash`: what is encoded
-- decodes, and a checksum is a `u32`.
pub record Codec : Type 0 where
  pub encode : WalEntry → Option Bytes
  pub decode : Bytes → Option WalEntry
  pub crc : Bytes → ℕ
  pub decode-encode : (e : WalEntry) (b : Bytes) → encode e ≡ some b → decode b ≡ some e
  pub crc-lt : (b : Bytes) → crc b < 2 ^ 32

abbrev pub max_wal_record_len : ℕ
max_wal_record_len = 64 * 1024 * 1024

-- `len | crc32 | payload`
unfoldable pub frame : Codec → Bytes → Bytes
unfolding to_le_bytes
frame c payload = to_le_bytes 4 (length payload) ++ (to_le_bytes 4 (c.crc payload) ++ payload)

unfoldable pub encode_record : Codec → WalEntry → Result Bytes
unfolding frame
encode_record c entry = elim (c.encode entry) [
  | none ↦ err (serialization encode_failed)
  | some payload ↦
      if ltb max_wal_record_len (length payload)
      then err (serialization record_too_large)
      else ok (frame c payload)
]
