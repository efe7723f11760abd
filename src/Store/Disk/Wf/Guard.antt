-- ===== src/Store/Disk/Wf/Guard.antt =====
-- The key-range index of store/disk.rs against a read of every patch.
use z1kv.Common.{
  ℕ, ◌≡◌, ◌∙◌, refl, sym, ap, Bool, true, false, ◌&&◌, Option, List, [], ◌∷◌, ◌++◌, map, retain,
  retain-append, In, here, there, Bool-cases, inl, inr, arith,
}
use z1kv.Common.Bytes.{Bytes, bytes_eq, bytes_eq_iff, bytes_le}
use z1kv.Errors.{Result, ok, err, Z1Error, IoKind, >>=-eq-ok}
use z1kv.Codec.DiskFormat.{DiskFormat}
use z1kv.Store.Types.{Z1Entry, PatchEntry, Z1PatchFormatV4}
use z1kv.Store.Types.Sorting.{Every}
use z1kv.Store.Disk.Paths.{PatchPath}
use z1kv.Store.Disk.{
  RangeEntry, DiskLayer, ranges, to_z1_entry, collect, with_entries, get_versions, all_versions,
}
use z1kv.Store.Disk.Reads.{is_not_found, Result-cases, fold_reads, patch_at, collect-fold_reads}
use z1kv.Store.Disk.Wf.{in_range, known-patch_at, IsLayer}

abbrev covers : Bytes → RangeEntry → Bool
covers key r = bytes_le r.min_key key && bytes_le key r.max_key

abbrev has_key : Bytes → PatchEntry → Bool
has_key key pe = bytes_eq pe.key key

abbrev path_of : RangeEntry → PatchPath
path_of r = r.path

-- A patch whose range does not cover a key has no version of it.
retain_outside :
    (key : Bytes) (r : RangeEntry) (entries : List PatchEntry)
    → Every (in_range r) entries
    → covers key r ≡ false
    → retain (has_key key) entries ≡ []
unfolding retain
retain_outside key r [] a h = refl
retain_outside key r (e ∷ es) a h = ground (arith, retain_outside key r es, bytes_eq_iff e.key key)

fold_reads-ok :
    (g : PatchPath → Result (List PatchEntry)) (p : PatchPath) (ps : List PatchPath)
    (entries more : List PatchEntry)
    → g p ≡ ok entries
    → fold_reads g ps ≡ ok more
    → fold_reads g (p ∷ ps) ≡ ok (entries ++ more)
unfolding fold_reads
fold_reads-ok g p ps entries more h k = rw (h, fold_reads) (rw k refl)

fold_reads-gone :
    (g : PatchPath → Result (List PatchEntry)) (p : PatchPath) (ps : List PatchPath) (x : Z1Error)
    (more : List PatchEntry)
    → g p ≡ err x
    → fold_reads g (p ∷ ps) ≡ ok more
    → (is_not_found x ≡ true) × (fold_reads g ps ≡ ok more)
unfolding fold_reads
fold_reads-gone g p ps x more h k = ground arith

fold_reads-skip :
    (g : PatchPath → Result (List PatchEntry)) (p : PatchPath) (ps : List PatchPath) (x : Z1Error)
    (more : List PatchEntry)
    → g p ≡ err x
    → is_not_found x ≡ true
    → fold_reads g ps ≡ ok more
    → fold_reads g (p ∷ ps) ≡ ok more
unfolding fold_reads
fold_reads-skip g p ps x more h n k = rw (h, fold_reads) (rw n k)

-- What the reads of the covering patches give, against the reads of all.
abbrev Pruned :
    (PatchPath → Result (List PatchEntry)) → Bytes → List RangeEntry → List PatchEntry → Type 0
Pruned g key rs all =
    (found : List PatchEntry) × (fold_reads g (map path_of (retain (covers key) rs)) ≡ ok found)
    × (retain (has_key key) found ≡ retain (has_key key) all)

prune_head :
    (g : PatchPath → Result (List PatchEntry)) (key : Bytes) (r : RangeEntry) (rs : List RangeEntry)
    (entries more : List PatchEntry)
    → Every (in_range r) entries
    → g r.path ≡ ok entries
    → Pruned g key rs more
    → Pruned g key (r ∷ rs) (entries ++ more)
unfolding retain
prune_head g key r rs entries more a h (found, reads, same) = elim (Bool-cases (covers key r)) [
  | inl inside ↦ (
    entries ++ found,
    rw inside (fold_reads-ok g r.path (map path_of (retain (covers key) rs)) entries found h reads),
    retain-append (has_key key) entries found
        ∙ ap (λ (l : List PatchEntry). retain (has_key key) entries ++ l) same
        ∙ sym (retain-append (has_key key) entries more),
  )
  | inr outside ↦ (
    found,
    rw outside reads,
    same
        ∙ sym (
            retain-append (has_key key) entries more
            ∙ ap (λ (l : List PatchEntry). l ++ retain (has_key key) more)
                (retain_outside key r entries a outside)),
  )
]

prune_gone :
    (g : PatchPath → Result (List PatchEntry)) (key : Bytes) (r : RangeEntry) (rs : List RangeEntry)
    (x : Z1Error) (more : List PatchEntry)
    → g r.path ≡ err x
    → is_not_found x ≡ true
    → Pruned g key rs more
    → Pruned g key (r ∷ rs) more
unfolding retain
prune_gone g key r rs x more h n (found, reads, same) = elim (Bool-cases (covers key r)) [
  | inl inside ↦ (
    found,
    rw inside (fold_reads-skip g r.path (map path_of (retain (covers key) rs)) x found h n reads),
    same,
  )
  | inr outside ↦ (found, rw outside reads, same)
]

prune :
    (g : PatchPath → Result (List PatchEntry)) (key : Bytes) (rs : List RangeEntry)
    (all : List PatchEntry)
    → ((r : RangeEntry) (entries : List PatchEntry)
        → In r rs
        → g r.path ≡ ok entries
        → Every (in_range r) entries)
    → fold_reads g (map path_of rs) ≡ ok all
    → Pruned g key rs all
unfolding fold_reads retain
prune g key [] all a h = (all, h, refl)
prune g key (r ∷ rs) all a h = elim (Result-cases (g r.path)) [
  | inl (entries, reads) ↦
      let (more, rest, whole) =
        >>=-eq-ok (fold_reads g (map path_of rs)) (λ more. ok (entries ++ more))
          (rw (reads, fold_reads) at h) in
      let same : entries ++ more ≡ all = cc in
      rw (← same) (
        prune_head g key r rs entries more (a r entries (here refl) reads) reads
          (prune g key rs more (λ s es m. a s es (there m)) rest))
  | inr (x, fails) ↦
      let (gone, rest) = fold_reads-gone g r.path (map path_of rs) x all fails h in
      prune_gone g key r rs x all fails gone (prune g key rs all (λ s es m. a s es (there m)) rest)
]

to_z1_entry-retain :
    (cf : ℕ) (key : Bytes) (entries : List PatchEntry)
    → map
        (λ pe. record (to_z1_entry cf pe) { key = record { cf = cf; key = key } })
        (retain (has_key key) entries)
      ≡ retain (λ (e : Z1Entry). bytes_eq e.key.key key) (map (to_z1_entry cf) entries)
unfolding retain
to_z1_entry-retain cf key [] = refl
to_z1_entry-retain cf key (e ∷ es) =
    ground (arith, to_z1_entry-retain cf key es, bytes_eq_iff e.key key)

with_entries-snd :
    {B : Type 0} (h : List PatchEntry → B) (r : DiskLayer × Result (List PatchEntry))
    (entries : List PatchEntry)
    → r.1 ≡ ok entries
    → (with_entries h r).1 ≡ ok (h entries)
with_entries-snd h (l, ok es) entries e = cc
with_entries-snd h (l, err x) entries e = cc

with_entries-inv :
    {B : Type 0} (h : List PatchEntry → B) (r : DiskLayer × Result (List PatchEntry)) (b : B)
    → (with_entries h r).1 ≡ ok b
    → (entries : List PatchEntry) × (r.1 ≡ ok entries) × (h entries ≡ b)
with_entries-inv h (l, ok es) b e = (es, refl, cc)
with_entries-inv h (l, err x) b e = cc

-- The guard index loses no version: whenever all the patches of a column family can be read, the
-- point read, which consults only the patches whose key range covers the key, returns exactly the
-- versions of the key among all of them, in the same order, whatever is in the cache.
pub get_versions-all_versions :
    (f : DiskFormat Z1PatchFormatV4) (broken : PatchPath → Option IoKind) (next_id cf : ℕ)
    (key : Bytes) (l : DiskLayer) (versions : List Z1Entry)
    → IsLayer f next_id l
    → (all_versions f broken cf l).1 ≡ ok versions
    → (get_versions f broken cf key l).1 ≡ ok (retain (λ e. bytes_eq e.key.key key) versions)
unfolding get_versions all_versions
get_versions-all_versions f broken next_id cf key l versions w h =
    let g : PatchPath → Result (List PatchEntry) = patch_at f broken l in
    let rs : List RangeEntry = ranges cf l.index in
    let (all, reads, same) =
      with_entries-inv (map (to_z1_entry cf)) (collect f broken (map path_of rs) l) versions h in
    let (found, pruned, keeps) =
      prune g key rs all
        (λ r entries m e. w.bounded cf r entries m (known-patch_at f broken l r.path entries e))
        (sym (collect-fold_reads f broken g (map path_of rs) l (λ q. refl)) ∙ reads) in
    with_entries-snd _ (collect f broken (map path_of (retain (covers key) rs)) l) found
      (collect-fold_reads f broken g (map path_of (retain (covers key) rs)) l (λ q. refl) ∙ pruned)
    ∙ ap ok (
        ap (map (λ pe. record (to_z1_entry cf pe) { key = record { cf = cf; key = key } })) keeps
        ∙ to_z1_entry-retain cf key all
        ∙ ap (retain (λ (e : Z1Entry). bytes_eq e.key.key key)) same)
