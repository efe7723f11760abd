-- ===== src/Store/Mem/Scan.antt =====
-- `range_visible` of store/mem.rs.
use z1kv.Common.{ℕ, Bool, ◌&&◌, Option, List, [], map, retain, ◌==◌}
use z1kv.Common.Map.{Map}
use z1kv.Common.Bytes.{Bytes, bytes_le}
use z1kv.Store.Types.{Z1Entry, is_visible_at_commit}
use z1kv.Store.Disk.{keep_bests, below}
use z1kv.Store.Mem.{MemStore, sources}

-- A visible version of a key of the column family in `[start, end)`.
unfoldable pub in_scan : ℕ → Bytes → Option Bytes → ℕ → Map ℕ → List ℕ → Z1Entry → Bool
unfolding below is_visible_at_commit
in_scan cf start end_key snapshot_txn commits active e =
    (e.key.cf == cf)
    && (bytes_le start e.key.key
        && (below end_key e.key.key && is_visible_at_commit e snapshot_txn commits active))

unfoldable pub range_visible :
    ℕ → Bytes → Option Bytes → ℕ → Map ℕ → List ℕ → MemStore → List (Bytes × Z1Entry)
unfolding in_scan keep_bests retain
range_visible cf start end_key snapshot_txn commits active m =
    keep_bests
      (map (λ e. (e.key.key, e))
        (retain (in_scan cf start end_key snapshot_txn commits active) (sources m)))
      []
