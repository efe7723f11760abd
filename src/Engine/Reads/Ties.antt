-- ===== src/Engine/Reads/Ties.antt =====
-- A transaction that writes a key, and again behind a flush.
use z1kv.Common.{ℕ, ◌≡◌, refl, ap, true, Option, none, some, [], ◌∷◌, retain, ==_refl, arith}
use z1kv.Common.Bytes.{Bytes, bytes_eq, bytes_eq_refl, bytes_cmp, bytes_cmp_refl, bytes_le}
use z1kv.Errors.{ok}
use z1kv.Mvcc.Types.{TxnSnapshot}
use z1kv.Store.Types.{Z1Key, PatchEntry, put_entry, is_tombstone, is_visible_at_commit}
use z1kv.Store.Mem.{is_candidate, get_versions, sort_by_txn, insert_by_txn}
use z1kv.Store.Mem.Scan.{range_visible, in_scan}
use z1kv.Store.RecentFlush.{new_cache, get_for_key, get_filtered}
use z1kv.Store.Disk.{
  DiskLayer, to_z1_entry, keep_best, keep_bests, below, collect, load_patch, after_load, ranges,
}
use z1kv.Store.Disk.Paths.{PatchPath, lookup}
use z1kv.Common.Map.{get}
use z1kv.Store.Disk as disk
use z1kv.Engine.{World, Engine}
use z1kv.Engine.Reads.{
  sees, memory_versions, memory_scan, candidates, get_at, scan_layers, scan_at, value_of, last_max,
  live,
}

abbrev pub empty_layer : DiskLayer
empty_layer = record { files = []; index = []; content = [] }

module _ (w : World) (snap : TxnSnapshot) (cf : ℕ) (key old new : Bytes) (txn_id ts : ℕ) where
  abbrev pub zk : Z1Key
  zk = record { cf = cf; key = key }

  abbrev flushed : PatchEntry
  flushed = record { key = key; value = some old; txn_id = txn_id }

  abbrev path : PatchPath
  path = record { cf = cf; patch_id = 0 }

  abbrev patched : DiskLayer
  patched = record {
    files = [];
    index = (cf, record { min_key = key; max_key = key; path = path } ∷ []) ∷ [];
    content = (path, flushed ∷ []) ∷ [];
  }

  -- The old version has been flushed to L2, and the new one is in the hot buffer.
  abbrev pub overwritten : Engine → Engine
  overwritten e = record e {
    layers = record e.layers {
      l1 = record e.layers.l1 { hot = put_entry zk txn_id new ts ∷ []; cold = []; snapshot = [] };
      l2 = patched;
      l3 = empty_layer;
      recent_flush = new_cache;
    };
  }

  reflexive : bytes_le key key ≡ true
  unfolding bytes_cmp
  reflexive = ground (arith, bytes_cmp_refl key)

  hit : lookup path patched.content ≡ some (flushed ∷ [])
  unfolding lookup
  hit = ground (arith, ==_refl cf)

  loaded : load_patch w.disk_format w.l2_broken path patched ≡ (patched, ok (flushed ∷ []))
  unfolding load_patch
  loaded = rw (hit, load_patch) refl

  collected : collect w.disk_format w.l2_broken (path ∷ []) patched ≡ (patched, ok (flushed ∷ []))
  unfolding collect after_load
  collected = rw (loaded, collect) refl

  indexed : ranges cf patched.index ≡ record { min_key = key; max_key = key; path = path } ∷ []
  unfolding ranges get
  indexed = ground (arith, ==_refl cf)

  at_key : retain (λ (pe : PatchEntry). bytes_eq pe.key key) (flushed ∷ []) ≡ flushed ∷ []
  unfolding retain
  at_key = ground (arith, bytes_eq_refl key)

  read :
      disk.get_versions w.disk_format w.l2_broken cf key patched
      ≡ (patched, ok (to_z1_entry cf flushed ∷ []))
  unfolding disk.get_versions retain
  read = rw (indexed, reflexive, disk.get_versions) (rw (collected) (rw (at_key) refl))

  ranged :
      disk.range_visible w.disk_format w.l2_broken cf key none patched
      ≡ (patched, ok ((key, to_z1_entry cf flushed) ∷ []))
  unfolding disk.range_visible retain below keep_bests keep_best
  ranged = rw (indexed, reflexive, disk.range_visible) (rw (collected) (rw (reflexive) refl))

  module _ (seen : sees snap (put_entry zk txn_id new ts) ≡ true) where
    seen_old : sees snap (to_z1_entry cf flushed) ≡ true
    unfolding is_visible_at_commit put_entry
    seen_old = seen

    found :
        (e : Engine)
        → memory_versions snap cf key (overwritten e).layers ≡ put_entry zk txn_id new ts ∷ []
    unfolding memory_versions get_versions is_candidate retain sort_by_txn insert_by_txn get_for_key
        put_entry
    found e = rw (seen, ==_refl cf, bytes_eq_refl key) (ground arith)

    scanned :
        (e : Engine)
        → memory_scan snap cf key none (overwritten e).layers
          ≡ (key, put_entry zk txn_id new ts) ∷ []
    unfolding memory_scan range_visible in_scan retain below keep_bests keep_best get_filtered
        put_entry
    scanned e = rw (seen, ==_refl cf, reflexive) refl

    picked :
        value_of (last_max (put_entry zk txn_id new ts ∷ to_z1_entry cf flushed ∷ [])) ≡ some old
    unfolding value_of last_max is_tombstone put_entry
    picked = ground arith

    merged :
        live
          (keep_bests ((key, put_entry zk txn_id new ts) ∷ (key, to_z1_entry cf flushed) ∷ []) [])
        ≡ (key, new) ∷ []
    unfolding live keep_bests keep_best put_entry
    merged = rw (bytes_eq_refl key) (ground arith)

    -- A transaction that overwrites its own key when a flush has moved its first version to a patch of L2,
    -- with nothing else in the layers: the point read of a snapshot that sees the transaction returns the
    -- old value, and the scan returns the new one.
    pub get_at-scan_at :
        (e : Engine)
        → ((get_at w snap cf key (overwritten e)).1 ≡ ok (some old))
          × ((scan_at w snap cf key none (overwritten e)).1 ≡ ok ((key, new) ∷ []))
    unfolding get_at scan_at candidates scan_layers retain
    get_at-scan_at e = (
      rw (found e, candidates) (rw (read) (rw (seen_old) (ap (λ (v : Option Bytes). ok v) picked))),
      rw (scanned e, scan_layers) (rw (ranged) (rw (seen_old) (ap ok merged))),
    )
