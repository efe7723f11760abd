-- ===== src/Engine/Reads/Hides.antt =====
-- Two committed versions of a key in a patch of L2, and a snapshot between them.
use z1kv.Common.{ℕ, ◌≡◌, ◌<◌, refl, true, false, none, some, [], ◌∷◌, retain, ==_refl, arith}
use z1kv.Common.Map.{get}
use z1kv.Common.Bytes.{Bytes, bytes_eq, bytes_eq_refl, bytes_cmp, bytes_cmp_refl, bytes_le}
use z1kv.Errors.{ok}
use z1kv.Mvcc.Types.{TxnSnapshot}
use z1kv.Store.Types.{PatchEntry, is_tombstone}
use z1kv.Store.Mem.{get_versions, sort_by_txn}
use z1kv.Store.Mem.Scan.{range_visible}
use z1kv.Store.RecentFlush.{new_cache, get_for_key, get_filtered}
use z1kv.Store.Disk.{
  DiskLayer, to_z1_entry, keep_best, keep_bests, below, collect, load_patch, after_load, ranges,
}
use z1kv.Store.Disk.Paths.{PatchPath, lookup}
use z1kv.Store.Disk as disk
use z1kv.Engine.{World, Engine}
use z1kv.Engine.Reads.{
  sees, memory_versions, memory_scan, candidates, get_at, scan_layers, scan_at, value_of, last_max,
  live,
}
use z1kv.Engine.Reads.Ties.{empty_layer}

module _ (w : World) (snap : TxnSnapshot) (cf : ℕ) (key old new : Bytes) (older newer : ℕ) where
  abbrev version : Bytes → ℕ → PatchEntry
  version value txn_id = record { key = key; value = some value; txn_id = txn_id }

  abbrev path : PatchPath
  path = record { cf = cf; patch_id = 0 }

  -- Both versions are in a cached patch of L2.
  abbrev patched : DiskLayer
  patched = record {
    files = [];
    index = (cf, record { min_key = key; max_key = key; path = path } ∷ []) ∷ [];
    content = (path, version old older ∷ version new newer ∷ []) ∷ [];
  }

  abbrev pub compacted : Engine → Engine
  compacted e = record e {
    layers = record e.layers {
      l1 = record e.layers.l1 { hot = []; cold = []; snapshot = [] };
      l2 = patched;
      l3 = empty_layer;
      recent_flush = new_cache;
    };
  }

  reflexive : bytes_le key key ≡ true
  unfolding bytes_cmp
  reflexive = ground (arith, bytes_cmp_refl key)

  hit : lookup path patched.content ≡ some (version old older ∷ version new newer ∷ [])
  unfolding lookup
  hit = ground (arith, ==_refl cf)

  loaded :
      load_patch w.disk_format w.l2_broken path patched
      ≡ (patched, ok (version old older ∷ version new newer ∷ []))
  unfolding load_patch
  loaded = rw (hit, load_patch) refl

  collected :
      collect w.disk_format w.l2_broken (path ∷ []) patched
      ≡ (patched, ok (version old older ∷ version new newer ∷ []))
  unfolding collect after_load
  collected = rw (loaded, collect) refl

  indexed : ranges cf patched.index ≡ record { min_key = key; max_key = key; path = path } ∷ []
  unfolding ranges get
  indexed = ground (arith, ==_refl cf)

  at_key :
      retain (λ (pe : PatchEntry). bytes_eq pe.key key) (version old older ∷ version new newer ∷ [])
      ≡ version old older ∷ version new newer ∷ []
  unfolding retain
  at_key = ground (arith, bytes_eq_refl key)

  read :
      disk.get_versions w.disk_format w.l2_broken cf key patched
      ≡ (patched, ok (to_z1_entry cf (version old older) ∷ to_z1_entry cf (version new newer) ∷ []))
  unfolding disk.get_versions retain
  read = rw (indexed, reflexive, disk.get_versions) (rw (collected) (rw (at_key) refl))

  module _ (order : older < newer) where
    scanned :
        disk.range_visible w.disk_format w.l2_broken cf key none patched
        ≡ (patched, ok ((key, to_z1_entry cf (version new newer)) ∷ []))
    unfolding disk.range_visible retain below keep_bests keep_best
    scanned =
        rw (indexed, reflexive, disk.range_visible)
          (rw (collected) (rw (reflexive, bytes_eq_refl key) (ground (arith, order))))

    no_memory : (e : Engine) → memory_versions snap cf key (compacted e).layers ≡ []
    unfolding memory_versions get_versions retain get_for_key sort_by_txn
    no_memory e = refl

    no_memory_scan : (e : Engine) → memory_scan snap cf key none (compacted e).layers ≡ []
    unfolding memory_scan range_visible retain keep_bests get_filtered
    no_memory_scan e = refl

    module _ (seen : sees snap (to_z1_entry cf (version old older)) ≡ true)
        (unseen : sees snap (to_z1_entry cf (version new newer)) ≡ false) where
      -- A snapshot that sees the older of two versions in L2 and not the newer one: the point read returns the
      -- older value, and the scan returns nothing, since the layer keeps the newest version of a key before
      -- the snapshot decides which it sees.
      pub scan_at-hides :
          (e : Engine)
          → ((get_at w snap cf key (compacted e)).1 ≡ ok (some old))
            × ((scan_at w snap cf key none (compacted e)).1 ≡ ok [])
      unfolding get_at scan_at candidates scan_layers live keep_bests last_max value_of is_tombstone
          retain
      scan_at-hides e = (
        rw (no_memory e, candidates) (rw (read) (rw (seen, unseen) refl)),
        rw (no_memory_scan e, scan_layers) (rw (scanned) (rw (unseen) refl)),
      )
