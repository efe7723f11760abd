-- ===== src/Store/Flush/Compacts.antt =====
-- A compaction drops a column family of L2 only behind the patch that takes it over.
use z1kv.Common.{ℕ, ◌+◌, ◌≡◌, refl, Option, List, [], ◌∷◌, map, In, In-nil, inl, inr, ◌⊎◌}
use z1kv.Errors.{Result, ok, err, IoKind}
use z1kv.Effects.{pure, continue}
use z1kv.Codec.DiskFormat.{DiskFormat}
use z1kv.Store.Types.{Z1Entry, PatchEntry, Z1PatchFormatV4}
use z1kv.Store.Gc.{gc_entries}
use z1kv.Store.Disk.{DiskLayer, append_patch, Removal, drop_cf}
use z1kv.DurableWriter.{Written}
use z1kv.Store.Disk.Paths.{PatchPath}
use z1kv.Store.Disk.Wf.{IsLayer}
use z1kv.Store.Disk.Wf.Steps.{Stored}
use z1kv.Store.Disk.Wf.Append.{Appended, append_patch-Appended}
use z1kv.Store.Flush.{
  FlushEngine, to_patch_entry, next_u64, on_l2, append_next, take_over, Counts, compact_entries,
}

module _ (f : DiskFormat Z1PatchFormatV4) (write : ℕ → Written) (broken : PatchPath → Option IoKind)
    (removal : ℕ → Removal) where
  -- What the takeover of a column family makes of the engine.
  pub record TakenOver {A : Type 0} (s : FlushEngine) (cf : ℕ) (retained : List PatchEntry)
      (out : FlushEngine × Result A) : Type 0 where
    pub kept : (k : ℕ) (pe : PatchEntry) → Stored f s.l3 k pe → Stored f out.0.l3 k pe
    pub either : (out.0.l2 ≡ s.l2) ⊎ ((pe : PatchEntry) → In pe retained → Stored f out.0.l3 cf pe)

  take_over-TakenOver :
      (cf : ℕ) (retained : List PatchEntry) (s : FlushEngine)
      → IsLayer f s.next_patch_id s.l3
      → TakenOver s cf retained (take_over f write broken removal cf retained s)
  unfolding take_over append_next
  take_over-TakenOver cf [] s w = record {
    kept = λ k pe m. m;
    either = inr (λ pe m. absurd (In-nil m));
  }
  take_over-TakenOver cf (e ∷ es) s w =
      step (append_patch f write cf (e ∷ es) s.next_patch_id s.l3)
        (append_patch-Appended f s.next_patch_id cf s.l3 w write (e ∷ es))
    where
      step :
          (out : DiskLayer × Result (Unit {0}))
          → Appended f s.next_patch_id cf s.l3 (e ∷ es) out
          → TakenOver s cf (e ∷ es) (
              continue
                (λ _. on_l2 (drop_cf (removal cf) cf))
                (record s { next_patch_id = next_u64 s.next_patch_id; l3 = out.0 }, out.1))
      step (l, ok t) a = record { kept = a.kept; either = inr (a.added refl) }
      step (l, err x) a = record { kept = a.kept; either = inl refl }

  -- Compacting a column family loses nothing that is stored in L3, and L2 is as it was, or all that the
  -- collection retains of its versions is stored in L3, whether or not the compaction succeeds.
  pub compact_entries-TakenOver :
      (watermark cf : ℕ) (versions : List Z1Entry) (counts : Counts) (s : FlushEngine)
      → IsLayer f s.next_patch_id s.l3
      → TakenOver s cf
          (gc_entries (map to_patch_entry versions) watermark).0
          (compact_entries f write broken removal watermark cf versions counts s)
  unfolding compact_entries
  compact_entries-TakenOver watermark cf [] counts s w = record {
    kept = λ k pe m. m;
    either = inl refl;
  }
  compact_entries-TakenOver watermark cf (v ∷ versions) counts s w =
      counted (take_over f write broken removal cf retained s) (take_over-TakenOver cf retained s w)
    where
      retained : List PatchEntry
      retained = (gc_entries (map to_patch_entry (v ∷ versions)) watermark).0

      counted :
          (out : FlushEngine × Result (Unit {0}))
          → TakenOver s cf retained out
          → TakenOver {A = Counts} s cf retained (
              continue {B = Counts}
                (λ _. pure (
                  counts.0 + 1,
                  counts.1 + (gc_entries (map to_patch_entry (v ∷ versions)) watermark).1.reclaimed,
                ))
                out)
      counted (out, ok t) m = record { kept = m.kept; either = m.either }
      counted (out, err x) m = record { kept = m.kept; either = m.either }
