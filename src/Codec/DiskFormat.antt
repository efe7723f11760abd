-- ===== src/Codec/DiskFormat.antt =====
-- codec/disk_format.rs: magic, version, checksum and length before a payload. `postcard` and
-- `crc32fast` are parameters. The slices `bytes[6..10]`, `[10..14]` and `[14..18]` are read from the
-- bytes behind the magic. `usize` has 64 bits, so `checked_add` does not overflow.
pub mod Laws
use z1kv.Common.{
  ℕ, ◌+◌, ◌-◌, ◌^◌, ◌≡◌, ◌≤◌, ◌<◌, Bool, not, ◌&&◌, ◌||◌, Option, none, some, ◌++◌, length, take,
  drop, ltb, leb, ◌==◌, if◌then◌else◌,
}
use z1kv.Common.Bytes.{Bytes, bytes_eq, to_le_bytes, from_le_bytes}
use z1kv.Errors.{
  Result, ok, err, serialization, deserialize, encode_failed, payload_too_large, too_short,
  magic_mismatch, unsupported_version, truncated, crc_mismatch, decode_failed,
}

-- An implementation of the trait, with `postcard` at its type: what is encoded decodes, and a
-- checksum is a `u32`.
pub record DiskFormat (A : Type 0) : Type 0 where
  pub magic : Bytes
  pub version : ℕ
  pub min_readable_version : ℕ
  pub encode : A → Option Bytes
  pub decode : Bytes → Option A
  pub crc : Bytes → ℕ
  pub magic-length : length magic ≡ 6
  pub version-lt : version < 2 ^ 32
  pub readable : min_readable_version ≤ version
  pub decode-encode : (v : A) (b : Bytes) → encode v ≡ some b → decode b ≡ some v
  pub crc-lt : (b : Bytes) → crc b < 2 ^ 32

abbrev pub header_size : ℕ
header_size = 6 + 4 + 4 + 4

-- The word at an offset behind the magic.
unfoldable pub word_at : ℕ → Bytes → ℕ
unfolding from_le_bytes
word_at offset bytes = from_le_bytes (take 4 (drop offset (drop 6 bytes)))

unfoldable pub payload_of : Bytes → Bytes
unfolding word_at
payload_of bytes = take (word_at 8 bytes) (drop 12 (drop 6 bytes))

module _ {A : Type 0} (f : DiskFormat A) where
  unfoldable pub header : Bytes → Bytes
  unfolding to_le_bytes
  header payload =
      to_le_bytes 4 f.version ++ (to_le_bytes 4 (f.crc payload) ++ to_le_bytes 4 (length payload))

  unfoldable pub to_disk_bytes : A → Result Bytes
  unfolding header
  to_disk_bytes v = elim (f.encode v) [
    | none ↦ err (serialization encode_failed)
    | some payload ↦
        if ltb (2 ^ 32 - 1) (length payload)
        then err (serialization payload_too_large)
        else ok (f.magic ++ (header payload ++ payload))
  ]

  unfoldable pub from_disk_bytes : Bytes → Result A
  unfolding word_at payload_of bytes_eq
  from_disk_bytes bytes =
      if ltb (length bytes) header_size
      then err (deserialize too_short)
      else if not (bytes_eq (take 6 bytes) f.magic)
      then err (deserialize magic_mismatch)
      else if ltb (word_at 0 bytes) f.min_readable_version || ltb f.version (word_at 0 bytes)
      then err (deserialize unsupported_version)
      else if ltb (length bytes) (header_size + word_at 8 bytes)
      then err (deserialize truncated)
      else if not (f.crc (payload_of bytes) == word_at 4 bytes)
      then err (deserialize crc_mismatch)
      else elim (f.decode (payload_of bytes)) [
        | none ↦ err (deserialize decode_failed)
        | some v ↦ ok v
      ]

  unfoldable pub matches_magic : Bytes → Bool
  unfolding bytes_eq
  matches_magic bytes = leb 6 (length bytes) && bytes_eq (take 6 bytes) f.magic
