-- ===== src/Engine/Reads.antt =====
-- The reads of txn/mod.rs: all the layers, under the gate.
pub mod Isolated
pub mod Ties
pub mod Hides
use z1kv.Common.{
  ℕ, Bool, ◌&&◌, Option, none, some, List, [], ◌∷◌, ◌++◌, map, ltb, retain, ◌==◌, if◌then◌else◌,
}
use z1kv.Common.Bytes.{Bytes, bytes_le}
use z1kv.Common.Map.{get}
use z1kv.Errors.{Result, ok, err, txn_not_found}
use z1kv.Effects.{Exec, pure, continue, ◌>>=◌, ◌>>◌}
use z1kv.Mvcc.Types.{TxnSnapshot}
use z1kv.Mvcc.Manager.{record_read}
use z1kv.Mvcc.Cache.{current_snapshot}
use z1kv.Store.Types.{Z1Entry, is_tombstone, is_visible_at_commit}
use z1kv.Store.Mem.{get_versions}
use z1kv.Store.Mem.Scan.{range_visible, in_scan}
use z1kv.Store.RecentFlush.{get_for_key, get_filtered}
use z1kv.Store.Disk.{DiskLayer, keep_bests}
use z1kv.Store.Disk as disk
use z1kv.Store.Flush.{FlushEngine, on_l2, on_l3}
use z1kv.Engine.{World, Engine, on_layers, conflict_key}

-- `max_by_key(|e| e.txn_id)`: the last one of the largest.
unfoldable pub last_max : List Z1Entry → Option Z1Entry
last_max [] = none
last_max (e ∷ es) = elim (last_max es) [
  | none ↦ some e
  | some best ↦ if ltb best.txn_id e.txn_id then some e else some best
]

unfoldable pub value_of : Option Z1Entry → Option Bytes
unfolding is_tombstone
value_of none = none
value_of (some e) = if is_tombstone e then none else e.value

abbrev pub sees : TxnSnapshot → Z1Entry → Bool
sees snap e = is_visible_at_commit e snap.snapshot_id snap.commit_ts_map snap.active_txns

-- The candidates of L1 and of the cache.
unfoldable pub memory_versions : TxnSnapshot → ℕ → Bytes → FlushEngine → List Z1Entry
unfolding get_versions get_for_key retain
memory_versions snap cf key s =
    get_versions (record { cf = cf; key = key }) snap.snapshot_id snap.commit_ts_map
      snap.active_txns s.l1
    ++ retain (sees snap) (get_for_key cf key s.recent_flush)

unfoldable pub memory_scan :
    TxnSnapshot → ℕ → Bytes → Option Bytes → FlushEngine → List (Bytes × Z1Entry)
unfolding range_visible get_filtered in_scan
memory_scan snap cf start end_key s =
    range_visible cf start end_key snap.snapshot_id snap.commit_ts_map snap.active_txns s.l1
    ++ map (λ e. (e.key.key, e))
        (get_filtered
          (in_scan cf start end_key snap.snapshot_id snap.commit_ts_map snap.active_txns)
          s.recent_flush)

-- The pairs with a value.
unfoldable pub live : List (Bytes × Z1Entry) → List (Bytes × Bytes)
live [] = []
live ((key, e) ∷ best) =
    let rest = live best in elim e.value [ none ↦ rest | some v ↦ (key, v) ∷ rest ]

module _ (w : World) where
  unfoldable pub candidates : TxnSnapshot → ℕ → Bytes → Exec FlushEngine (List Z1Entry)
  unfolding memory_versions disk.get_versions
  candidates snap cf key s =
      (do
        l2 ← on_l2 (disk.get_versions w.disk_format w.l2_broken cf key)
        l3 ← on_l3 (disk.get_versions w.disk_format w.l3_broken cf key)
        pure (memory_versions snap cf key s ++ (retain (sees snap) l2 ++ retain (sees snap) l3)))
        s

  unfoldable pub get_at : TxnSnapshot → ℕ → Bytes → Exec Engine (Option Bytes)
  unfolding candidates last_max value_of
  get_at snap cf key =
      on_layers (candidates snap cf key >>= λ found. pure (value_of (last_max found)))

  unfoldable pub snapshot_now : Exec Engine TxnSnapshot
  unfolding current_snapshot
  snapshot_now e =
      let (cache, snap) = current_snapshot e.mvcc e.snapshot_cache in
      (record e { snapshot_cache = cache }, ok snap)

  unfoldable pub get_now : ℕ → Bytes → Exec Engine (Option Bytes)
  unfolding snapshot_now get_at
  get_now cf key = do snap ← snapshot_now; get_at snap cf key

  unfoldable pub get_for_txn : ℕ → Bytes → ℕ → Exec Engine (Option Bytes)
  unfolding get record_read conflict_key get_at
  get_for_txn cf key txn_id e = elim (get txn_id e.txn_snapshots) [
    | none ↦ (e, err (txn_not_found txn_id))
    | some snap ↦
        get_at snap cf key (record e { mvcc = record_read txn_id (conflict_key cf key) e.mvcc })
  ]

  unfoldable pub scan_layers :
      TxnSnapshot → ℕ → Bytes → Option Bytes → Exec FlushEngine (List (Bytes × Z1Entry))
  unfolding memory_scan disk.range_visible keep_bests
  scan_layers snap cf start end_key s =
      (do
        l2 ← on_l2 (disk.range_visible w.disk_format w.l2_broken cf start end_key)
        l3 ← on_l3 (disk.range_visible w.disk_format w.l3_broken cf start end_key)
        pure (
            keep_bests
              (memory_scan snap cf start end_key s
                ++ (retain (λ x. sees snap x.1) l2 ++ retain (λ x. sees snap x.1) l3))
              []))
        s

  unfoldable pub scan_at :
      TxnSnapshot → ℕ → Bytes → Option Bytes → Exec Engine (List (Bytes × Bytes))
  unfolding scan_layers live
  scan_at snap cf start end_key =
      on_layers (scan_layers snap cf start end_key >>= λ best. pure (live best))

  unfoldable pub scan_now : ℕ → Bytes → Option Bytes → Exec Engine (List (Bytes × Bytes))
  unfolding snapshot_now scan_at
  scan_now cf start end_key = do snap ← snapshot_now; scan_at snap cf start end_key
