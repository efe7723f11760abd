-- ===== src/Store/Disk/Wf/Append.antt =====
-- Appending a patch to a layer, on every outcome of the write.
use z1kv.Common.{
  ◌⊎◌, ◌≤◌, ℕ, suc, ◌≡◌, refl, Bool, true, false, List, [], ◌∷◌, In, In-nil, inl, inr, arith,
}
use z1kv.Errors.{Result, ok, err, Z1Error}
use z1kv.Codec.DiskFormat.{DiskFormat, to_disk_bytes}
use z1kv.Store.Types.{PatchEntry, Z1PatchFormatV4, sparse}
use z1kv.Common.Bytes.{Bytes}
use z1kv.Store.Disk.{DiskLayer, range_of, entries_of, append_patch}
use z1kv.DurableWriter.{Written, landed, refused}
use z1kv.Store.Disk.Reads.{Result-cases}
use z1kv.Store.Disk.Wf.{IsLayer}
use z1kv.Store.Disk.Wf.Bounds.{sparse-in_range, In-sort_entries}
use z1kv.Store.Disk.Wf.Steps.{
  Stored, indexed, written, indexed_new, indexed-IsLayer, known_new, written-IsLayer,
  Stored-indexed, Stored-written,
}

Written-cases :
    (w : Written) → (w ≡ landed) ⊎ ((replaced : Bool) × (x : Z1Error) × (w ≡ refused replaced x))
Written-cases landed = inl refl
Written-cases (refused replaced x) = inr (replaced, x, refl)

module _ (f : DiskFormat Z1PatchFormatV4) where
  -- What an append makes of a layer.
  pub record Appended (next_id cf : ℕ) (l : DiskLayer) (es : List PatchEntry)
      (out : DiskLayer × Result (Unit {0})) : Type 0 where
    pub layer : IsLayer f (suc next_id) out.0
    pub kept : (k : ℕ) (pe : PatchEntry) → Stored f l k pe → Stored f out.0 k pe
    pub added : out.1 ≡ ok tt → (pe : PatchEntry) → In pe es → Stored f out.0 cf pe

  pub IsLayer_later : (m n : ℕ) (l : DiskLayer) → m ≤ n → IsLayer f m l → IsLayer f n l
  IsLayer_later m n l le w = record {
    bounded = w.bounded;
    index_ids = λ k r i. omega (arith, w.index_ids k r i, le);
    content_ids = λ p es e. omega (arith, w.content_ids p es e, le);
  }

  module _ (next_id cf : ℕ) (l : DiskLayer) (w : IsLayer f next_id l) where
    unchanged : (es : List PatchEntry) (x : Z1Error) → Appended next_id cf l es (l, err x)
    unchanged es x = record {
      layer = IsLayer_later next_id (suc next_id) l (omega arith) w;
      kept = λ k pe s. s;
      added = λ h pe m. absurd (cc);
    }

    -- Whatever the write does, the layer stays well-formed and keeps the stored versions. If it succeeds,
    -- each appended version is stored.
    pub append_patch-Appended :
        (write : ℕ → Written) (es : List PatchEntry)
        → Appended next_id cf l es (append_patch f write cf es next_id l)
    unfolding append_patch
    append_patch-Appended write [] = record {
      layer = IsLayer_later next_id (suc next_id) l (omega arith) w;
      kept = λ k pe s. s;
      added = λ h pe m. absurd (In-nil m);
    }
    append_patch-Appended write (e ∷ es) = elim (Result-cases (to_disk_bytes f (sparse (e ∷ es)))) [
      | inr (x, fails) ↦ rw (fails, append_patch) (unchanged (e ∷ es) x)
      | inl (bytes, encoded) ↦ elim (Written-cases (write next_id)) [
        | inl lands ↦ rw (encoded, lands, append_patch) (done bytes encoded)
        | inr (false, x, fails) ↦ rw (encoded, fails, append_patch) (unchanged (e ∷ es) x)
        | inr (true, x, fails) ↦ rw (encoded, fails, append_patch) (half bytes encoded x)
      ]
    ]
      where
        done :
            (bytes : Bytes) (encoded : to_disk_bytes f (sparse (e ∷ es)) ≡ ok bytes)
            → Appended next_id cf l
                (e ∷ es)
                (indexed f next_id cf l w (sparse (e ∷ es)) bytes encoded, ok tt)
        done bytes encoded = record {
          layer =
              indexed-IsLayer f next_id cf l w (sparse (e ∷ es)) bytes encoded
                (sparse-in_range (e ∷ es));
          kept = Stored-indexed f next_id cf l w (sparse (e ∷ es)) bytes encoded;
          added = λ h pe m. (
            range_of (sparse (e ∷ es)) (record { cf = cf; patch_id = next_id }),
            entries_of (sparse (e ∷ es)),
            indexed_new f next_id cf l w (sparse (e ∷ es)) bytes encoded,
            known_new f next_id cf l w (sparse (e ∷ es)) bytes encoded,
            In-sort_entries (e ∷ es) m,
          );
        }

        half :
            (bytes : Bytes) (encoded : to_disk_bytes f (sparse (e ∷ es)) ≡ ok bytes) (x : Z1Error)
            → Appended next_id cf l
                (e ∷ es)
                (written f next_id cf l w (sparse (e ∷ es)) bytes encoded, err x)
        half bytes encoded x = record {
          layer = written-IsLayer f next_id cf l w (sparse (e ∷ es)) bytes encoded;
          kept = Stored-written f next_id cf l w (sparse (e ∷ es)) bytes encoded;
          added = λ h pe m. absurd (cc);
        }
