-- ===== src/Store/Disk/Wf/Steps.antt =====
-- The operations that change a layer, the invariant, and what stays stored.
use z1kv.Common.{
  ℕ, suc, ◌≡◌, ◌<◌, ◌∙◌, refl, sym, subst, some, List, [], ◌∷◌, ◌++◌, In, In-nil, here, there,
  In-append_cases, In-append_left, In-append_right, ◌⊎◌, ◌==◌, ==_refl, ==_iff, Bool-cases,
  Option-cases, inl, inr, if◌then◌else◌, arith,
}
use mathlib.Core.List.{append-nil}
use z1kv.Common.Map.{Map, insert, get-insert}
use z1kv.Common.Bytes.{Bytes}
use z1kv.Errors.{ok}
use z1kv.Codec.DiskFormat.{DiskFormat, to_disk_bytes}
use z1kv.Codec.DiskFormat.Laws.{from_disk_bytes-to_disk_bytes}
use z1kv.Store.Types.{PatchEntry, Z1PatchFormatV4}
use z1kv.Store.Types.Sorting.{Every}
use z1kv.Store.Disk.Paths.{PatchPath, lookup, store, lookup-store}
use z1kv.Store.Disk.{RangeEntry, DiskLayer, ranges, range_of, entries_of}
use z1kv.Store.Disk.Wf.{in_range, known, IsLayer}

ranges-insert :
    (cf k : ℕ) (rs : List RangeEntry) (index : Map (List RangeEntry))
    → ranges k (insert cf rs index) ≡ (if cf == k then rs else ranges k index)
unfolding ranges
ranges-insert cf k rs index = ground (arith, get-insert cf k rs index)

module _ (f : DiskFormat Z1PatchFormatV4) where
  -- An entry of an indexed patch of the column family.
  abbrev pub Stored : DiskLayer → ℕ → PatchEntry → Type 0
  Stored l cf pe =
      (r : RangeEntry) × (entries : List PatchEntry) × In r (ranges cf l.index)
      × (known f l r.path ≡ some entries)
      × In pe entries

  module _ (next_id cf : ℕ) (l : DiskLayer) (w : IsLayer f next_id l) (format : Z1PatchFormatV4)
      (bytes : Bytes) (encoded : to_disk_bytes f format ≡ ok bytes) where
    abbrev path : PatchPath
    path = record { cf = cf; patch_id = next_id }

    abbrev pub written : DiskLayer
    written = record l { files = store path bytes l.files }

    abbrev pub indexed : DiskLayer
    indexed = record written {
      index = insert cf (ranges cf l.index ++ range_of format path ∷ []) l.index;
    }

    -- A patch with an older id is as before.
    known_old : (q : PatchPath) → q.patch_id < next_id → known f written q ≡ known f l q
    unfolding known
    known_old q old = ground (arith, lookup-store path q bytes l.files)

    pub known_new : known f indexed path ≡ some (entries_of format)
    unfolding known
    known_new = elim (Option-cases (lookup path l.content)) [
      | inr (es, hit) ↦ absurd (omega (arith, w.content_ids path es hit))
      | inl miss ↦ ground (
        arith,
        miss,
        lookup-store path path bytes l.files,
        from_disk_bytes-to_disk_bytes f format bytes [] encoded,
        append-nil bytes,
      )
    ]

    pub written-IsLayer : IsLayer f (suc next_id) written
    written-IsLayer = record {
      bounded = λ k r entries m e.
          w.bounded k r entries m (sym (known_old r.path (w.index_ids k r m)) ∙ e);
      index_ids = λ k r m. omega (arith, w.index_ids k r m);
      content_ids = λ p entries e. omega (arith, w.content_ids p entries e);
    }

    -- An index entry is an old one or the new one.
    In-indexed :
        (k : ℕ) (r : RangeEntry)
        → In r (ranges k indexed.index)
        → In r (ranges k l.index) ⊎ (range_of format path ≡ r)
    In-indexed k r m = elim (Bool-cases (cf == k)) [
      | inr other ↦ inl (subst (In r) (ranges-insert cf k _ l.index ∙ rw other refl) m)
      | inl same ↦
          let at : In r (ranges cf l.index ++ range_of format path ∷ []) =
            subst (In r) (ranges-insert cf k _ l.index ∙ rw same refl) m in
          elim (In-append_cases (ranges cf l.index) at) [
            | inl old ↦ inl (subst (λ (j : ℕ). In r (ranges j l.index)) ((==_iff cf k).0 same) old)
            | inr new ↦ inr (only new)
          ]
    ]
      where
        only : In r (range_of format path ∷ []) → range_of format path ≡ r
        only (here e) = e
        only (there n) = absurd (In-nil n)

    indexed_old : (k : ℕ) (r : RangeEntry) → In r (ranges k l.index) → In r (ranges k indexed.index)
    indexed_old k r m = elim (Bool-cases (cf == k)) [
      | inr other ↦ subst (In r) (sym (ranges-insert cf k _ l.index ∙ rw other refl)) m
      | inl same ↦ subst (In r) (sym (ranges-insert cf k _ l.index ∙ rw same refl)) (
          In-append_left (range_of format path ∷ [])
            (subst (λ (j : ℕ). In r (ranges j l.index)) (sym ((==_iff cf k).0 same)) m))
    ]

    ranges_indexed : ranges cf indexed.index ≡ ranges cf l.index ++ range_of format path ∷ []
    ranges_indexed = ground (
      arith,
      ranges-insert cf cf (ranges cf l.index ++ range_of format path ∷ []) l.index,
      ==_refl cf,
    )

    pub indexed_new : In (range_of format path) (ranges cf indexed.index)
    indexed_new =
        subst (In (range_of format path)) (sym ranges_indexed)
          (In-append_right (ranges cf l.index) (here {xs = []} refl))

    pub indexed-IsLayer :
        ((p : PatchPath) → Every (in_range (range_of format p)) (entries_of format))
        → IsLayer f (suc next_id) indexed
    unfolding known
    indexed-IsLayer bound = record {
      bounded = λ k r entries m e. elim (In-indexed k r m) [
        | inl old ↦ w.bounded k r entries old (sym (known_old r.path (w.index_ids k r old)) ∙ e)
        | inr new ↦
            subst (λ s. Every (in_range s) entries) new
              (subst (λ (es : List PatchEntry). Every (in_range (range_of format path)) es)
                (fresh r entries new e) (bound path))
      ];
      index_ids = λ k r m. elim (In-indexed k r m) [
        | inl old ↦ omega (arith, w.index_ids k r old)
        | inr new ↦ subst (λ (s : RangeEntry). s.path.patch_id < suc next_id) new (omega arith)
      ];
      content_ids = λ p entries e. omega (arith, w.content_ids p entries e);
    }
      where
        fresh :
            (r : RangeEntry) (entries : List PatchEntry)
            → range_of format path ≡ r
            → known f indexed r.path ≡ some entries
            → entries_of format ≡ entries
        fresh r entries new e = cc (known_new, e, new)

    pub Stored-written : (k : ℕ) (pe : PatchEntry) → Stored l k pe → Stored written k pe
    Stored-written k pe (r, es, m, e, at) = (r, es, m, known_old r.path (w.index_ids k r m) ∙ e, at)

    pub Stored-indexed : (k : ℕ) (pe : PatchEntry) → Stored l k pe → Stored indexed k pe
    unfolding insert known
    Stored-indexed k pe (r, es, m, e, at) =
        (r, es, indexed_old k r m, known_old r.path (w.index_ids k r m) ∙ e, at)
