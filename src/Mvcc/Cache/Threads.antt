-- ===== src/Mvcc/Cache/Threads.antt =====
-- mvcc/cache.rs between threads: `invalidate` and `snapshot` as the single accesses to the shared cells
-- that they consist of. `managers` gives the manager after each number of mutations, and the moment counts
-- them. A thread carries what its code holds in local variables.
use z1kv.Common.{Bool, true, false, ℕ, suc, ◌+◌, ◌%◌, ◌≡◌, Option, none, some, ◌==◌, if◌then◌else◌}
use z1kv.Common.Map.{Map, get, insert, remove}
use z1kv.Mvcc.Types.{TxnSnapshot, VisibilityManager, snapshot}
use z1kv.Mvcc.Prune.{u64_mod}
use z1kv.Mvcc.Manager.{take_snapshot}
use z1kv.Mvcc.Cache.{SnapshotCacheEntry, SnapshotCache}

-- A call of `snapshot`. `since` is the moment of the last clearing of the cache before the call.
pub data Reader : Type 0 where
  called : (since : ℕ) → Reader
  loaded : (since gen : ℕ) → Reader
  missed : (since gen : ℕ) → Reader
  built : (since gen : ℕ) (snap : TxnSnapshot) → Reader
  validated : (since gen : ℕ) (snap : TxnSnapshot) → Reader
  returned : (since : ℕ) (snap : TxnSnapshot) → Reader

-- A call of `invalidate`.
pub data Invalidator : Type 0 where
  cleared : Invalidator
  bumping : (old : ℕ) → Invalidator

-- The cells of the cache. The code has neither the moment nor that of the last clearing, which the theorems
-- refer to.
pub record Shared : Type 0 where
  pub cache : SnapshotCache
  pub moment : ℕ
  pub cleared_at : ℕ

-- The fast path: an entry of the generation that was loaded.
unfoldable pub lookup_entry : (since gen : ℕ) → Option SnapshotCacheEntry → Reader
lookup_entry since gen none = missed since gen
lookup_entry since gen (some entry) =
    if entry.built_in == gen then returned since entry.cached else missed since gen

module _ (managers : ℕ → VisibilityManager) where
  -- The next access of a call of `snapshot`.
  unfoldable pub read_step : Reader → Shared → Shared × Reader
  unfolding take_snapshot lookup_entry
  read_step (called since) s = (s, loaded since s.cache.generation)
  read_step (loaded since gen) s = (s, lookup_entry since gen s.cache.full_cache)
  read_step (missed since gen) s = (s, built since gen (take_snapshot snapshot (managers s.moment)))
  read_step (built since gen snap) s =
      (s, if s.cache.generation == gen then validated since gen snap else called since)
  read_step (validated since gen snap) s = (
    record s {
      cache = record s.cache { full_cache = some (record { built_in = gen; cached = snap }) };
    },
    returned since snap,
  )
  read_step (returned since snap) s = (s, returned since snap)

-- The clearing is the first access of a call of `invalidate`.
abbrev pub clear_cache : Shared → Shared
clear_cache s = record s { cache = record s.cache { full_cache = none }; cleared_at = s.moment }

-- The next access, and `none` when the call has returned.
unfoldable pub invalidate_step : Invalidator → Shared → Shared × Option Invalidator
invalidate_step cleared s = (s, some (bumping s.cache.generation))
invalidate_step (bumping old) s =
    (record s { cache = record s.cache { generation = (old + 1) % u64_mod } }, none)

pub record Threads : Type 0 where
  pub shared : Shared
  pub readers : Map Reader
  pub invalidators : Map Invalidator

unfoldable pub resume : ℕ → Option Invalidator → Map Invalidator → Map Invalidator
unfolding insert remove
resume id none m = remove id m
resume id (some i) m = insert id i m

-- A call that has returned holds the lock no longer.
unfoldable pub is_returned : Reader → Bool
is_returned (returned since snap) = true
is_returned _ = false

-- A call of `snapshot` borrows the manager: the manager changes while no call is under way.
abbrev pub Unlocked : Map Reader → Type 0
Unlocked readers = (id : ℕ) (r : Reader) → get id readers ≡ some r → is_returned r ≡ true

pub data Step (managers : ℕ → VisibilityManager) (t : Threads) : Threads → Type 0 where
  mutates :
      Unlocked t.readers
      → Step managers t (record t { shared = record t.shared { moment = suc t.shared.moment } })
  calls_snapshot :
      (id : ℕ)
      → Step managers t (record t { readers = insert id (called t.shared.cleared_at) t.readers })
  reads :
      (id : ℕ) (r : Reader)
      → get id t.readers ≡ some r
      → Step managers t (record t {
        shared = (read_step managers r t.shared).0;
        readers = insert id (read_step managers r t.shared).1 t.readers;
      })
  calls_invalidate :
      (id : ℕ)
      → Step managers t (record t {
        shared = clear_cache t.shared;
        invalidators = insert id cleared t.invalidators;
      })
  invalidates :
      (id : ℕ) (i : Invalidator)
      → get id t.invalidators ≡ some i
      → Step managers t (record t {
        shared = (invalidate_step i t.shared).0;
        invalidators = resume id (invalidate_step i t.shared).1 t.invalidators;
      })

pub data Reach (managers : ℕ → VisibilityManager) (s : Threads) : Threads → Type 0 where
  initial : Reach managers s s
  later : {t u : Threads} → Reach managers s t → Step managers t u → Reach managers s u
