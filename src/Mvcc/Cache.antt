-- ===== src/Mvcc/Cache.antt =====
-- mvcc/cache.rs: the cache of the current snapshot, with the generation it was built in. A method is one
-- step: nothing changes the generation while a snapshot is built.
pub mod Threads
pub mod Calm
pub mod Fresh
use z1kv.Common.{ℕ, ◌+◌, ◌%◌, Option, none, some, ◌==◌, if◌then◌else◌}
use z1kv.Mvcc.Types.{TxnSnapshot, snapshot, VisibilityManager}
use z1kv.Mvcc.Prune.{u64_mod}
use z1kv.Mvcc.Manager.{take_snapshot}

pub record SnapshotCacheEntry : Type 0 where
  pub built_in : ℕ
  pub cached : TxnSnapshot

pub record SnapshotCache : Type 0 where
  pub generation : ℕ
  pub full_cache : Option SnapshotCacheEntry

abbrev pub new_snapshot_cache : SnapshotCache
new_snapshot_cache = record { generation = 1; full_cache = none }

-- The cache is cleared first.
unfoldable pub invalidate : SnapshotCache → SnapshotCache
invalidate c =
    let cleared : SnapshotCache = record c { full_cache = none } in
    record cleared { generation = (cleared.generation + 1) % u64_mod }

unfoldable pub build : VisibilityManager → SnapshotCache → SnapshotCache × TxnSnapshot
unfolding take_snapshot
build mvcc c =
    let snap = take_snapshot snapshot mvcc in
    (record c { full_cache = some (record { built_in = c.generation; cached = snap }) }, snap)

unfoldable pub current_snapshot : VisibilityManager → SnapshotCache → SnapshotCache × TxnSnapshot
unfolding build
current_snapshot mvcc c = elim c.full_cache [
  | none ↦ build mvcc c
  | some entry ↦ if entry.built_in == c.generation then (c, entry.cached) else build mvcc c
]
