-- ===== src/Store/Disk/Reads.antt =====
-- Reads of a layer: the loop over the patches as a fold that leaves the state alone, and the key-range
-- index against a read of every patch.
use z1kv.Common.{
  ◌≡◌, ◌∙◌, refl, sym, ap, Bool, true, false, Option, none, some, List, [], ◌∷◌, ◌++◌, ◌⊎◌,
  Bool-cases, Option-cases, inl, inr, if◌then◌else◌, arith,
}
use z1kv.Errors.{Result, ok, err, Z1Error, IoKind, io, not_found, ◌>>=◌}
use z1kv.Effects.{continue}
use z1kv.Codec.DiskFormat.{DiskFormat}
use z1kv.Store.Types.{PatchEntry, Z1PatchFormatV4}
use z1kv.Store.Disk.Paths.{
  PatchPath, path_eq, path_eq_iff, lookup, store, forget, lookup-store, lookup-forget,
}
use z1kv.Store.Disk.{
  DiskLayer, remove_range, read_file, keep_content, load_patch, after_load, collect,
}

abbrev pub is_not_found : Z1Error → Bool
is_not_found (io not_found) = true
is_not_found _ = false

pub Result-cases {ℓ} :
    {A : Type ℓ} (r : Result A) → ((a : A) × (r ≡ ok a)) ⊎ ((e : Z1Error) × (r ≡ err e))
Result-cases (ok a) = inl (a, refl)
Result-cases (err e) = inr (e, refl)

-- The loop over the patches, given what each of them reads as.
unfoldable pub fold_reads :
    (PatchPath → Result (List PatchEntry)) → List PatchPath → Result (List PatchEntry)
fold_reads g [] = ok []
fold_reads g (p ∷ ps) =
    let rest = fold_reads g ps in
    elim (g p) [
      | ok entries ↦ rest >>= λ more. ok (entries ++ more)
      | err x ↦ if is_not_found x then rest else err x
    ]

module _ (f : DiskFormat Z1PatchFormatV4) (broken : PatchPath → Option IoKind) where
  -- What a patch reads as: its cached content, or its file's.
  unfoldable pub patch_at : DiskLayer → PatchPath → Result (List PatchEntry)
  unfolding lookup
  patch_at l p = elim (lookup p l.content) [ some hit ↦ ok hit | none ↦ read_file f broken p l ]

  -- A read that fills the cache changes nothing that later reads see.
  patch_at-keep_content :
      (l : DiskLayer) (p q : PatchPath) (entries : List PatchEntry)
      → patch_at l p ≡ ok entries
      → patch_at (record l { content = store p entries l.content }) q ≡ patch_at l q
  unfolding patch_at read_file
  patch_at-keep_content l p q entries h = elim (Bool-cases (path_eq p q)) [
    | inl same ↦ ground (arith, lookup-store p q entries l.content, path_eq_iff p q)
    | inr other ↦ ground (arith, lookup-store p q entries l.content)
  ]

  patch_at-forget :
      (l : DiskLayer) (p q : PatchPath)
      → lookup p l.content ≡ none
      → patch_at (record l { index = remove_range p l.index; content = forget p l.content }) q
        ≡ patch_at l q
  unfolding patch_at read_file
  patch_at-forget l p q h = ground (arith, lookup-forget p q l.content, path_eq_iff p q)

  append-continue :
      (entries : List PatchEntry) (r : DiskLayer × Result (List PatchEntry))
      → (continue (λ more s. (s, ok (entries ++ more))) r).1
        ≡ (r.1 >>= λ more. ok (entries ++ more))
  append-continue entries (l, ok more) = refl
  append-continue entries (l, err x) = refl

  collect_nil :
      (g : PatchPath → Result (List PatchEntry)) (l : DiskLayer)
      → (collect f broken [] l).1 ≡ fold_reads g []
  unfolding collect fold_reads
  collect_nil g l = refl

  module _ (g : PatchPath → Result (List PatchEntry)) (p : PatchPath) (ps : List PatchPath) where
    loaded :
        (l : DiskLayer) (entries : List PatchEntry)
        → (collect f broken ps l).1 ≡ fold_reads g ps
        → g p ≡ ok entries
        → (after_load f broken p (collect f broken ps) (l, ok entries)).1 ≡ fold_reads g (p ∷ ps)
    unfolding after_load fold_reads
    loaded l entries ih h =
        rw (h, fold_reads)
          (append-continue entries (collect f broken ps l)
            ∙ ap (λ r. r >>= λ more. ok (entries ++ more)) ih)

    refused_io :
        (l : DiskLayer) (kind : IoKind)
        → (collect f broken ps
            (record l { index = remove_range p l.index; content = forget p l.content })).1
          ≡ fold_reads g ps
        → g p ≡ err (io kind)
        → (after_load f broken p (collect f broken ps) (l, err (io kind))).1 ≡ fold_reads g (p ∷ ps)
    unfolding after_load fold_reads
    refused_io l not_found ih h = rw (h, fold_reads) ih
    refused_io l IoKind.already_exists ih h = rw (h, fold_reads) refl
    refused_io l IoKind.permission_denied ih h = rw (h, fold_reads) refl
    refused_io l IoKind.unexpected_eof ih h = rw (h, fold_reads) refl
    refused_io l IoKind.other ih h = rw (h, fold_reads) refl

    refused_load :
        (l : DiskLayer) (x : Z1Error)
        → (collect f broken ps
            (record l { index = remove_range p l.index; content = forget p l.content })).1
          ≡ fold_reads g ps
        → g p ≡ err x
        → (after_load f broken p (collect f broken ps) (l, err x)).1 ≡ fold_reads g (p ∷ ps)
    unfolding after_load fold_reads
    refused_load l (io kind) ih h = refused_io l kind ih h
    refused_load l (Z1Error.serialization x) ih h = rw (h, fold_reads) refl
    refused_load l (Z1Error.deserialize x) ih h = rw (h, fold_reads) refl
    refused_load l Z1Error.internal ih h = rw (h, fold_reads) refl
    refused_load l Z1Error.wal ih h = rw (h, fold_reads) refl
    refused_load l (Z1Error.mvcc_conflict x) ih h = rw (h, fold_reads) refl
    refused_load l (Z1Error.txn_not_found x) ih h = rw (h, fold_reads) refl
    refused_load l (Z1Error.degraded x) ih h = rw (h, fold_reads) refl

  -- The loop over the patches is the fold, whatever is in the cache and whatever is taken out of the
  -- index on the way.
  pub collect-fold_reads :
      (g : PatchPath → Result (List PatchEntry)) (ps : List PatchPath) (l : DiskLayer)
      → ((q : PatchPath) → patch_at l q ≡ g q)
      → (collect f broken ps l).1 ≡ fold_reads g ps
  unfolding collect load_patch keep_content
  collect-fold_reads g [] l same = collect_nil g l
  collect-fold_reads g (p ∷ ps) l same = elim (Option-cases (lookup p l.content)) [
    | inr (hit, found) ↦
        rw (found, load_patch)
          (loaded g p ps l hit (collect-fold_reads g ps l same)
            (sym (same p) ∙ unfold patch_at in rw (found, patch_at) refl))
    | inl miss ↦
        let here : patch_at l p ≡ read_file f broken p l =
          unfold patch_at in rw (miss, patch_at) refl in
        elim (Result-cases (read_file f broken p l)) [
          | inl (entries, read) ↦
              let l' : DiskLayer = record l { content = store p entries l.content } in
              rw (miss, load_patch, read)
                (loaded g p ps l' entries
                  (collect-fold_reads g ps l'
                    (λ q. patch_at-keep_content l p q entries (here ∙ read) ∙ same q))
                  (sym (same p) ∙ here ∙ read))
          | inr (x, fails) ↦
              let l' : DiskLayer = record l {
                index = remove_range p l.index;
                content = forget p l.content;
              } in
              rw (miss, load_patch, fails)
                (refused_load g p ps l x
                  (collect-fold_reads g ps l' (λ q. patch_at-forget l p q miss ∙ same q))
                  (sym (same p) ∙ here ∙ fails))
        ]
  ]
