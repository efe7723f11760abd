-- ===== src/Tests/Layers.antt =====
-- Runs of the disk layer, of a flush and of a compaction.
use z1kv.Common.{
  ℕ, ◌==◌, ◌≡◌, ◌<◌, ◌+◌, refl, true, false, Option, none, some, [], ◌∷◌, In-nil, map, retain,
  length, arith,
}
use z1kv.Common.Bytes.{bytes_eq}
use z1kv.Errors.{ok, IoKind, io, other}
use z1kv.DurableWriter.{Written, landed, refused}
use z1kv.Mvcc.Prune.{u64_mod}
use z1kv.Store.Types.{Z1Entry, PatchEntry}
use z1kv.Store.Gc.{gc_entries}
use z1kv.Store.Disk.{
  DiskLayer, Removal, removed_all, append_patch, all_versions, get_versions, ranges,
}
use z1kv.Store.Disk.Paths.{PatchPath, lookup}
use z1kv.Store.Disk.Wf.{IsLayer, known}
use z1kv.Store.Disk.Wf.Append.{Appended, append_patch-Appended}
use z1kv.Store.Disk.Wf.Guard.{get_versions-all_versions}
use z1kv.Store.RecentFlush.{insert_all, new_cache}
use z1kv.Store.Flush.{FlushEngine, group_by_cf, to_patch_entry, flush_l1_to_l2, compact_entries}
use z1kv.Store.Flush.Keeps.{Flushed, flush_l1_to_l2-Flushed}
use z1kv.Store.Flush.Grouping.{Versions, differ}
use z1kv.Store.Flush.Compacts.{TakenOver, compact_entries-TakenOver}
use z1kv.Tests.Mem.{store, version}
use z1kv.Tests.Durable.{patch_format}

program : Unit {0}
unfolding append_patch all_versions get_versions ranges known gc_entries flush_l1_to_l2 group_by_cf
    insert_all differ lookup bytes_eq
program = tt

abbrev pub no_patches : DiskLayer
no_patches = record { files = []; index = []; content = [] }

pub no_patches-IsLayer : (next_id : ℕ) → IsLayer patch_format next_id no_patches
unfolding ranges lookup
no_patches-IsLayer next_id = record {
  bounded = λ cf r entries m e. absurd (In-nil m);
  index_ids = λ cf r m. absurd (In-nil m);
  content_ids = λ p entries e. absurd (ground arith);
}

abbrev pub readable : PatchPath → Option IoKind
readable p = none

-- The patch with the id 2 cannot be written.
abbrev second_fails : ℕ → Written
second_fails id = elim (id == 2) [ true ↦ refused true (io other) | false ↦ landed ]

abbrev pub all_land : ℕ → Written
all_land id = landed

abbrev pub removes : ℕ → Removal
removes cf = removed_all

abbrev entry : PatchEntry
entry = record { key = 107 ∷ []; value = some (118 ∷ []); txn_id = 7 }

append_patch-Appended_example :
    Appended patch_format 2 0 no_patches
      (entry ∷ [])
      (append_patch patch_format second_fails 0 (entry ∷ []) 2 no_patches)
append_patch-Appended_example =
    append_patch-Appended patch_format 2 0 no_patches (no_patches-IsLayer 2) second_fails
      (entry ∷ [])

-- A layer with a patch.
abbrev layer : DiskLayer
layer = (append_patch patch_format all_land 0 (entry ∷ []) 1 no_patches).0

layer-IsLayer : IsLayer patch_format 2 layer
layer-IsLayer =
    (append_patch-Appended patch_format 1 0 no_patches (no_patches-IsLayer 1) all_land
      (entry ∷ [])).layer

abbrev stored : Z1Entry
stored = record {
  key = record { cf = 0; key = 107 ∷ [] };
  txn_id = 7;
  value = some (118 ∷ []);
  ts = 0;
}

layer_versions : (all_versions patch_format readable 0 layer).1 ≡ ok (stored ∷ [])
unfolding program
layer_versions = refl

get_versions-all_versions_example :
    (get_versions patch_format readable 0 (107 ∷ []) layer).1
    ≡ ok (retain (λ e. bytes_eq e.key.key (107 ∷ [])) (stored ∷ []))
get_versions-all_versions_example =
    get_versions-all_versions patch_format readable 2 0 (107 ∷ []) layer (stored ∷ []) layer-IsLayer
      layer_versions

abbrev engine : FlushEngine
engine = record {
  l1 = store;
  l2 = layer;
  l3 = no_patches;
  recent_flush = record new_cache { cache = version 4 ∷ [] };
  flush_epoch = 0;
  next_patch_id = 2;
}

hot_distinct : Versions store.hot
unfolding program
hot_distinct = ((refl, tt), (tt, tt))

ids_left :
    engine.next_patch_id + length (group_by_cf (insert_all store.hot engine.recent_flush.cache) [])
    < u64_mod
unfolding program
ids_left = omega arith

flush_l1_to_l2-Flushed_example :
    Flushed patch_format second_fails engine (flush_l1_to_l2 patch_format second_fails engine)
flush_l1_to_l2-Flushed_example =
    flush_l1_to_l2-Flushed patch_format second_fails engine layer-IsLayer hot_distinct ids_left

compact_entries-TakenOver_example :
    TakenOver patch_format all_land readable removes {A = ℕ × ℕ} engine 0
      (gc_entries (map to_patch_entry (stored ∷ [])) 9).0
      (compact_entries patch_format all_land readable removes 9 0 (stored ∷ []) (0, 0) engine)
compact_entries-TakenOver_example =
    compact_entries-TakenOver patch_format all_land readable removes 9 0 (stored ∷ []) (0, 0) engine
      (no_patches-IsLayer 2)
