-- ===== src/Store/Disk/Wf.antt =====
-- The invariant of a layer: the index bounds the keys of the patches, and ids are below the next one.
pub mod Guard
pub mod Bounds
pub mod Steps
pub mod Append
use z1kv.Common.{
  ℕ, ◌≡◌, ◌<◌, refl, Bool, true, ◌&&◌, Option, none, some, List, In, Option-cases, inl, inr, arith,
}
use z1kv.Common.Bytes.{Bytes, bytes_le, bytes_cmp}
use z1kv.Errors.{ok, err, IoKind}
use z1kv.Codec.DiskFormat.{DiskFormat, from_disk_bytes}
use z1kv.Store.Types.{PatchEntry, Z1PatchFormatV4}
use z1kv.Store.Types.Sorting.{Every}
use z1kv.Store.Disk.Paths.{PatchPath, lookup}
use z1kv.Store.Disk.{RangeEntry, DiskLayer, ranges, entries_of, read_file}
use z1kv.Store.Disk.Reads.{patch_at}

abbrev pub in_range : RangeEntry → PatchEntry → Bool
in_range r pe = bytes_le r.min_key pe.key && bytes_le pe.key r.max_key

module _ (f : DiskFormat Z1PatchFormatV4) where
  -- The entries of a patch, in the cache or in its file.
  unfoldable pub known : DiskLayer → PatchPath → Option (List PatchEntry)
  unfolding lookup from_disk_bytes
  known l p = elim (lookup p l.content) [
    | some hit ↦ some hit
    | none ↦ elim (lookup p l.files) [
      | none ↦ none
      | some bytes ↦ elim (from_disk_bytes f bytes) [
        | err x ↦ none
        | ok format ↦ some (entries_of format)
      ]
    ]
  ]

  pub known-patch_at :
      (broken : PatchPath → Option IoKind) (l : DiskLayer) (p : PatchPath)
      (entries : List PatchEntry)
      → patch_at f broken l p ≡ ok entries
      → known l p ≡ some entries
  unfolding known patch_at read_file
  known-patch_at broken l p entries h = ground arith

  pub record IsLayer (next_id : ℕ) (l : DiskLayer) : Type 0 where
    pub bounded :
        (cf : ℕ) (r : RangeEntry) (entries : List PatchEntry)
        → In r (ranges cf l.index)
        → known l r.path ≡ some entries
        → Every (in_range r) entries
    pub index_ids : (cf : ℕ) (r : RangeEntry) → In r (ranges cf l.index) → r.path.patch_id < next_id
    pub content_ids :
        (p : PatchPath) (entries : List PatchEntry)
        → lookup p l.content ≡ some entries
        → p.patch_id < next_id
