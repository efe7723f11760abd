-- ===== src/Codec/DiskFormat/Laws.antt =====
-- `to_disk_bytes` and `from_disk_bytes` of codec/disk_format.rs.
use z1kv.Common.{
  ◌+◌, ◌^◌, ◌≡◌, ◌≤◌, ◌<◌, ◌↔◌, refl, subst, true, some, ◌++◌, length, take, drop, length-append,
  take-append, drop-append, Option-cases, inl, inr, ==_refl, arith,
}
use mathlib.Core.List.{append_assoc}
use z1kv.Common.Bytes.{Bytes, bytes_eq_refl, to_le_bytes, from_le_bytes-to_le_bytes}
use z1kv.Errors.{ok}
use z1kv.Codec.DiskFormat.{
  DiskFormat, header_size, word_at, payload_of, header, to_disk_bytes, from_disk_bytes,
  matches_magic,
}

module _ {A : Type 0} (f : DiskFormat A) where
  take-magic : (rest : Bytes) → take 6 (f.magic ++ rest) ≡ f.magic
  take-magic rest =
      subst (λ n. take n (f.magic ++ rest) ≡ f.magic) f.magic-length (take-append f.magic rest)

  drop-magic : (rest : Bytes) → drop 6 (f.magic ++ rest) ≡ rest
  drop-magic rest =
      subst (λ n. drop n (f.magic ++ rest) ≡ rest) f.magic-length (drop-append f.magic rest)

  module _ (payload rest : Bytes) (small : length payload < 2 ^ 32) where
    abbrev file : Bytes
    file = f.magic ++ (header f payload ++ (payload ++ rest))

    version-file : word_at 0 file ≡ f.version
    unfolding word_at header to_le_bytes
    version-file =
        rw (drop-magic (header f payload ++ (payload ++ rest)))
          (from_le_bytes-to_le_bytes f.version f.version-lt)

    crc-file : word_at 4 file ≡ f.crc payload
    unfolding word_at header to_le_bytes
    crc-file =
        rw (drop-magic (header f payload ++ (payload ++ rest)))
          (from_le_bytes-to_le_bytes (f.crc payload) (f.crc-lt payload))

    len-file : word_at 8 file ≡ length payload
    unfolding word_at header to_le_bytes
    len-file =
        rw (drop-magic (header f payload ++ (payload ++ rest)))
          (from_le_bytes-to_le_bytes (length payload) small)

    behind-file : drop 12 (drop 6 file) ≡ payload ++ rest
    unfolding header to_le_bytes
    behind-file = rw (drop-magic (header f payload ++ (payload ++ rest))) refl

    payload-file : payload_of file ≡ payload
    unfolding payload_of
    payload-file = rw (len-file, behind-file) (take-append payload rest)

    length-file : length file ≡ header_size + (length payload + length rest)
    unfolding header to_le_bytes
    length-file = omega (
      arith,
      f.magic-length,
      length-append f.magic (header f payload ++ (payload ++ rest)),
      length-append payload rest,
    )

    from_disk_bytes-file : (v : A) → f.decode payload ≡ some v → from_disk_bytes f file ≡ ok v
    unfolding from_disk_bytes
    from_disk_bytes-file v d =
        rw
          (
            length-file,
            take-magic (header f payload ++ (payload ++ rest)),
            version-file,
            len-file,
            behind-file,
            take-append payload rest,
            crc-file,
            d,
            bytes_eq_refl f.magic,
            ==_refl (f.crc payload),
          )
          (ground (arith, f.readable))

  -- Round trip: what `to_disk_bytes` writes is read back as the same value, whatever bytes follow it.
  pub from_disk_bytes-to_disk_bytes :
      (v : A) (bytes rest : Bytes)
      → to_disk_bytes f v ≡ ok bytes
      → from_disk_bytes f (bytes ++ rest) ≡ ok v
  unfolding to_disk_bytes
  from_disk_bytes-to_disk_bytes v bytes rest h = elim (Option-cases (f.encode v)) [
    | inl gone ↦ absurd (ground arith)
    | inr (payload, found) ↦
        let small : length payload < 2 ^ 32 = ground arith in
        let same : bytes ≡ f.magic ++ (header f payload ++ payload) = ground arith in
        let whole : bytes ++ rest ≡ file payload rest small =
          rw (same, append_assoc, append_assoc) refl in
        rw whole (from_disk_bytes-file payload rest small v (f.decode-encode v payload found))
  ]

  -- What a reader checks before it returns a value.
  pub record Accepted (bytes : Bytes) (v : A) : Type 0 where
    pub right_magic : matches_magic f bytes ≡ true
    pub not_old : f.min_readable_version ≤ word_at 0 bytes
    pub not_new : word_at 0 bytes ≤ f.version
    pub whole : header_size + word_at 8 bytes ≤ length bytes
    pub intact : f.crc (payload_of bytes) ≡ word_at 4 bytes
    pub decoded : f.decode (payload_of bytes) ≡ some v

  -- A file is accepted exactly when its magic is the format's, its version lies in the readable
  -- range, it has as many bytes as it declares, its payload has the stored checksum, and the payload
  -- decodes to the value.
  pub from_disk_bytes-Accepted_iff :
      (bytes : Bytes) (v : A) → (from_disk_bytes f bytes ≡ ok v) ↔ Accepted bytes v
  unfolding from_disk_bytes matches_magic
  from_disk_bytes-Accepted_iff bytes v = (to, from)
    where
      to : from_disk_bytes f bytes ≡ ok v → Accepted bytes v
      to h = ground arith

      from : Accepted bytes v → from_disk_bytes f bytes ≡ ok v
      from a = ground arith
