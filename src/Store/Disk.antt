-- ===== src/Store/Disk.antt =====
-- store/disk.rs: the patch files of a layer, their key-range index and the cache of their contents.
-- The directory is a map from paths to bytes. A file is read with the outcome that `broken` gives for
-- its path, and `NotFound` when it is not there; a patch is written with the outcome that `write`
-- gives for its id, as `write_durable` leaves the final path. The order of `read_dir` is that of the
-- map, and names of other files are left out.
pub mod Paths
pub mod Wf
pub mod Reads
use z1kv.Common.{
  ℕ, max, Bool, true, false, not, ◌&&◌, ◌||◌, Option, none, some, List, [], ◌∷◌, ◌++◌, map, leb,
  ltb, retain, ◌==◌, if◌then◌else◌,
}
use z1kv.Common.Map.{Map, get, insert, remove}
use z1kv.Common.Bytes.{Bytes, bytes_eq, bytes_le, bytes_lt, bytes_cmp}
use z1kv.Errors.{Result, ok, err, Z1Error, IoKind, io, not_found}
use z1kv.DurableWriter.{Written, landed, refused}
use z1kv.Effects.{Exec, pure, raise, continue, ◌>>=◌, ◌>>◌}
use z1kv.Codec.DiskFormat.{DiskFormat, to_disk_bytes, from_disk_bytes}
use z1kv.Store.Types.{Z1Key, Z1Entry, PatchEntry, Z1PatchFormatV4, sparse_of, sparse, key_bounds}
use z1kv.Store.Disk.Paths.{PatchPath, path_eq, PathMap, lookup, forget, store, forget_cf}

-- `RangeIndexEntry`
pub record RangeEntry : Type 0 where
  pub min_key : Bytes
  pub max_key : Bytes
  pub path : PatchPath

pub record DiskLayer : Type 0 where
  pub files : PathMap Bytes
  pub index : Map (List RangeEntry)
  pub content : PathMap (List PatchEntry)

abbrev pub entries_of : Z1PatchFormatV4 → List PatchEntry
entries_of (sparse_of entries) = entries

-- `unwrap_or_default()` on a key.
abbrev pub or_empty : Option Bytes → Bytes
or_empty none = []
or_empty (some k) = k

-- `idx.get(&cf)…unwrap_or_default()`
unfoldable pub ranges : ℕ → Map (List RangeEntry) → List RangeEntry
unfolding get
ranges cf index = elim (get cf index) [ none ↦ [] | some rs ↦ rs ]

abbrev pub range_of : Z1PatchFormatV4 → PatchPath → RangeEntry
range_of format path = record {
  min_key = or_empty (key_bounds format).0;
  max_key = or_empty (key_bounds format).1;
  path = path;
}

-- `sort_by` on the smallest keys, one entry at a time: an entry goes behind those with the same key.
unfoldable pub insert_range : RangeEntry → List RangeEntry → List RangeEntry
unfolding bytes_cmp
insert_range r [] = r ∷ []
insert_range r (s ∷ rs) =
    let rest = insert_range r rs in if bytes_lt r.min_key s.min_key then r ∷ s ∷ rs else s ∷ rest

unfoldable pub remove_range : PatchPath → Map (List RangeEntry) → Map (List RangeEntry)
unfolding retain
remove_range path index = map (λ e. (e.0, retain (λ r. not (path_eq r.path path)) e.1)) index

abbrev pub to_z1_entry : ℕ → PatchEntry → Z1Entry
to_z1_entry cf pe = record {
  key = record { cf = cf; key = pe.key };
  txn_id = pe.txn_id;
  value = pe.value;
  ts = 0;
}

-- The highest version of each key, in the order of the keys.
unfoldable pub keep_best : Bytes × Z1Entry → List (Bytes × Z1Entry) → List (Bytes × Z1Entry)
unfolding bytes_cmp bytes_eq
keep_best x [] = x ∷ []
keep_best x (y ∷ ys) =
    let rest = keep_best x ys in
    if bytes_eq x.0 y.0
    then (if leb x.1.txn_id y.1.txn_id then y ∷ ys else x ∷ ys)
    else if bytes_lt x.0 y.0
    then x ∷ y ∷ ys
    else y ∷ rest

unfoldable pub keep_bests : List (Bytes × Z1Entry) → List (Bytes × Z1Entry) → List (Bytes × Z1Entry)
unfolding keep_best
keep_bests [] best = best
keep_bests (x ∷ xs) best = keep_bests xs (keep_best x best)

-- `key < end`, with no end for `none`.
unfoldable pub below : Option Bytes → Bytes → Bool
unfolding bytes_cmp
below none key = true
below (some e) key = bytes_lt key e

unfoldable pub max_id : List RangeEntry → ℕ
max_id [] = 0
max_id (r ∷ rs) = max r.path.patch_id (max_id rs)

unfoldable pub max_patch_id_of : Map (List RangeEntry) → ℕ
unfolding max_id
max_patch_id_of [] = 0
max_patch_id_of ((cf, rs) ∷ index) = max (max_id rs) (max_patch_id_of index)

unfoldable pub max_patch_id : DiskLayer → ℕ
unfolding max_patch_id_of
max_patch_id l = max_patch_id_of l.index

unfoldable pub list_cfs : DiskLayer → List ℕ
list_cfs l = map (λ e. e.0) l.index

unfoldable pub patch_ids : ℕ → DiskLayer → List ℕ
unfolding retain
patch_ids cf l = map (λ f. f.0.patch_id) (retain (λ f. f.0.cf == cf) l.files)

-- How `remove_dir_all` ends: a failing one may have removed some of the files.
pub data Removal : Type 0 where
  removed_all : Removal
  removed_some : (gone : PatchPath → Bool) → IoKind → Removal

unfoldable pub drop_cf : Removal → ℕ → Exec DiskLayer (Unit {0})
unfolding remove forget_cf retain
drop_cf removed_all cf l = (
  record {
    files = forget_cf cf l.files;
    index = remove cf l.index;
    content = forget_cf cf l.content;
  },
  ok tt,
)
drop_cf (removed_some gone kind) cf l =
    (record l { files = retain (λ e. not (e.0.cf == cf && gone e.0)) l.files }, err (io kind))

-- What a read makes of the entries that it collected.
abbrev pub with_entries :
    {B : Type 0}
    → (List PatchEntry → B)
    → DiskLayer × Result (List PatchEntry)
    → DiskLayer × Result B
with_entries g (l, ok entries) = (l, ok (g entries))
with_entries g (l, err x) = (l, err x)

module _ (f : DiskFormat Z1PatchFormatV4) where
  -- The index entries of the readable files, sorted as the scan of the directory leaves them.
  unfoldable pub rebuild :
      (PatchPath → Option IoKind) → PathMap Bytes → Map (List RangeEntry) → Map (List RangeEntry)
  unfolding from_disk_bytes insert ranges insert_range key_bounds
  rebuild broken [] index = index
  rebuild broken ((path, bytes) ∷ files) index = rebuild broken files (elim (broken path) [
    | some kind ↦ insert path.cf (ranges path.cf index) index
    | none ↦ elim (from_disk_bytes f bytes) [
      | err e ↦ insert path.cf (ranges path.cf index) index
      | ok format ↦
          insert path.cf (insert_range (range_of format path) (ranges path.cf index)) index
    ]
  ])

  -- `DiskLayer::new`
  unfoldable pub open_layer : (PatchPath → Option IoKind) → PathMap Bytes → DiskLayer
  unfolding rebuild
  open_layer broken files = record { files = files; index = rebuild broken files []; content = [] }

  unfoldable pub append_patch : (ℕ → Written) → ℕ → List PatchEntry → ℕ → Exec DiskLayer (Unit {0})
  unfolding sparse key_bounds to_disk_bytes store ranges insert
  append_patch write cf [] patch_id l = (l, ok tt)
  append_patch write cf (e ∷ es) patch_id l =
      let format = sparse (e ∷ es) in
      let path : PatchPath = record { cf = cf; patch_id = patch_id } in
      elim (to_disk_bytes f format) [
        | err x ↦ (l, err x)
        | ok bytes ↦ elim (write patch_id) [
          | refused replaced x ↦
              (record l { files = if replaced then store path bytes l.files else l.files }, err x)
          | landed ↦ (
            record l {
              files = store path bytes l.files;
              index = insert cf (ranges cf l.index ++ range_of format path ∷ []) l.index;
            },
            ok tt,
          )
        ]
      ]

  module _ (broken : PatchPath → Option IoKind) where
    -- What reading a file gives.
    unfoldable pub read_file : PatchPath → DiskLayer → Result (List PatchEntry)
    unfolding lookup from_disk_bytes
    read_file path l = elim (broken path) [
      | some kind ↦ err (io kind)
      | none ↦ elim (lookup path l.files) [
        | none ↦ err (io not_found)
        | some bytes ↦ elim (from_disk_bytes f bytes) [
          | err x ↦ err x
          | ok format ↦ ok (entries_of format)
        ]
      ]
    ]

    unfoldable pub keep_content :
        PatchPath → DiskLayer → Result (List PatchEntry) → DiskLayer × Result (List PatchEntry)
    unfolding store
    keep_content path l (ok entries) =
        (record l { content = store path entries l.content }, ok entries)
    keep_content path l (err x) = (l, err x)

    unfoldable pub load_patch : PatchPath → Exec DiskLayer (List PatchEntry)
    unfolding lookup read_file keep_content
    load_patch path l = elim (lookup path l.content) [
      | some hit ↦ (l, ok hit)
      | none ↦ keep_content path l (read_file path l)
    ]

    -- A vanished file is taken out of the index and skipped; any other error ends the read.
    unfoldable pub after_load :
        PatchPath
        → Exec DiskLayer (List PatchEntry)
        → DiskLayer × Result (List PatchEntry)
        → DiskLayer × Result (List PatchEntry)
    unfolding remove_range forget
    after_load path rest (l, ok entries) = continue (λ more. pure (entries ++ more)) (rest l)
    after_load path rest (l, err (io not_found)) =
        rest (record l { index = remove_range path l.index; content = forget path l.content })
    after_load path rest (l, err x) = (l, err x)

    -- The loop over the paths: the entries of all the patches, in order.
    unfoldable pub collect : List PatchPath → Exec DiskLayer (List PatchEntry)
    unfolding load_patch after_load
    collect [] l = (l, ok [])
    collect (path ∷ paths) l = after_load path (collect paths) (load_patch path l)

    unfoldable pub get_versions : ℕ → Bytes → Exec DiskLayer (List Z1Entry)
    unfolding collect ranges retain bytes_cmp bytes_eq
    get_versions cf key l =
        with_entries
          (λ entries.
            map (λ pe. record (to_z1_entry cf pe) { key = record { cf = cf; key = key } })
              (retain (λ pe. bytes_eq pe.key key) entries))
          (collect
            (map (λ r. r.path)
              (retain (λ r. bytes_le r.min_key key && bytes_le key r.max_key) (ranges cf l.index)))
            l)

    unfoldable pub all_versions : ℕ → Exec DiskLayer (List Z1Entry)
    unfolding collect ranges
    all_versions cf l =
        with_entries (map (to_z1_entry cf)) (collect (map (λ r. r.path) (ranges cf l.index)) l)

    unfoldable pub range_visible :
        ℕ → Bytes → Option Bytes → Exec DiskLayer (List (Bytes × Z1Entry))
    unfolding collect ranges retain keep_bests below bytes_cmp
    range_visible cf start end_key l =
        with_entries
          (λ entries.
            keep_bests
              (map (λ pe. (pe.key, to_z1_entry cf pe))
                (retain (λ pe. bytes_le start pe.key && below end_key pe.key) entries))
              [])
          (collect
            (map (λ r. r.path)
              (retain (λ r. bytes_le start r.max_key && below end_key r.min_key)
                (ranges cf l.index)))
            l)
