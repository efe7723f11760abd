-- ===== src/Mvcc/Filter.antt =====
-- `VisFilter`: Rules 1 to 4 as `TxnSnapshot` and as `VisibilityManager` implement them.
pub mod Laws
use z1kv.Common.{ℕ, Bool, true, false, not, Option, none, some, List, ltb, leb, if◌then◌else◌}
use z1kv.Common.Map.{Map, get, contains_key}
use z1kv.Mvcc.Types.{contains, TxnSnapshot}

-- Rule 4, which both implementations write out: the deleting transaction hides the row.
unfoldable pub deleted_before : ℕ → Option ℕ → List ℕ → Map ℕ → Bool
unfolding contains get
deleted_before snapshot_id none active map = false
deleted_before snapshot_id (some del) active map =
    if contains del active
    then false
    else elim (get del map) [ none ↦ false | some del_ts ↦ leb del_ts snapshot_id ]

-- `impl VisFilter for TxnSnapshot`
unfoldable pub snapshot_is_row_visible : ℕ → ℕ → Option ℕ → List ℕ → Map ℕ → Bool
unfolding deleted_before contains_key
snapshot_is_row_visible snapshot_id created deleted active map =
    if ltb snapshot_id created
    then false
    else if contains created active
    then false
    else if not (contains_key created map)
    then false
    else if (elim (get created map) [ none ↦ false | some ts ↦ ltb snapshot_id ts ])
    then false
    else not (deleted_before snapshot_id deleted active map)

-- `impl VisFilter for VisibilityManager`
unfoldable pub manager_is_row_visible : ℕ → ℕ → Option ℕ → List ℕ → Map ℕ → Bool
unfolding deleted_before
manager_is_row_visible snapshot_id created deleted active map =
    if ltb snapshot_id created
    then false
    else if contains created active
    then false
    else elim (get created map) [
      | none ↦ false
      | some ts ↦
          if ltb snapshot_id ts then false else not (deleted_before snapshot_id deleted active map)
    ]

-- `VisibilityManager::is_visible`
unfoldable pub is_visible : TxnSnapshot → ℕ → Option ℕ → Bool
unfolding manager_is_row_visible
is_visible s created deleted =
    manager_is_row_visible s.snapshot_id created deleted s.active_txns s.commit_ts_map
