-- ===== src/Store/Mem.antt =====
-- store/mem.rs: the in-memory versions. A `BTreeMap` from `(Z1Key, txn_id)` is the list of its values
-- in the order of their keys; the locks make each method one step. `elapsed` stands for
-- `wal.ms_since_last_flush() >= ms`. The traces to stderr are left out.
pub mod Laws
pub mod Scan
pub mod Hidden
use Prim.Native.Nat.{Ordering, compare}
use z1kv.Common.{
  ℕ, suc, ◌+◌, Bool, true, false, not, ◌&&◌, ◌||◌, Option, none, some, List, [], ◌∷◌, ◌++◌, length,
  ltb, leb, retain, ◌==◌, if◌then◌else◌,
}
use z1kv.Common.Map.{Map}
use z1kv.Common.Bytes.{Bytes, bytes_cmp, bytes_eq, bytes_lt}
use z1kv.Errors.{Result, ok, err, IoKind}
use z1kv.Effects.{Exec, pure, continue, ◌>>=◌, ◌>>◌}
use z1kv.Store.Types.{Z1Key, Z1Entry, key_eq, is_visible_at_commit}
use z1kv.Wal.Record.{WalRecord, Codec}
use z1kv.Wal.Writer.{Inner, WalConfig, append, append_durable, flush_and_sync}

pub data SyncLevel : Type 0 where
  immediate : SyncLevel
  batch : (max_pending : ℕ) → SyncLevel
  async : SyncLevel

pub record MemStore : Type 0 where
  pub hot : List Z1Entry
  pub cold : List Z1Entry
  pub snapshot : List Z1Entry
  pub hot_size_bytes : ℕ
  pub flush_threshold : ℕ
  pub sync_level : SyncLevel
  -- `none` when no log is attached.
  pub wal : Option Inner
  pub batch_pending : ℕ

unfoldable pub new_store : ℕ → SyncLevel → MemStore
new_store flush_threshold sync_level = record {
  hot = [];
  cold = [];
  snapshot = [];
  hot_size_bytes = 0;
  flush_threshold = flush_threshold;
  sync_level = sync_level;
  wal = none;
  batch_pending = 0;
}

-- The order of `(Z1Key, TxnId)`: the column family, the key, the transaction.
unfoldable pub version_cmp : Z1Entry → Z1Entry → Ordering
unfolding bytes_cmp
version_cmp a b = elim (compare a.key.cf b.key.cf) [
  | Ordering.lt ↦ Ordering.lt
  | Ordering.gt ↦ Ordering.gt
  | Ordering.eq ↦ elim (bytes_cmp a.key.key b.key.key) [
    | Ordering.lt ↦ Ordering.lt
    | Ordering.gt ↦ Ordering.gt
    | Ordering.eq ↦ compare a.txn_id b.txn_id
  ]
]

unfoldable pub insert_version : Z1Entry → List Z1Entry → List Z1Entry
unfolding version_cmp
insert_version e [] = e ∷ []
insert_version e (f ∷ fs) =
    let rest = insert_version e fs in
    elim (version_cmp e f) [
      | Ordering.lt ↦ e ∷ f ∷ fs
      | Ordering.eq ↦ e ∷ fs
      | Ordering.gt ↦ f ∷ rest
    ]

unfoldable pub estimate_size : Z1Entry → ℕ
estimate_size e = length e.key.key + 2 + (elim e.value [ none ↦ 0 | some v ↦ length v ]) + 32

unfoldable pub replay_put : Z1Entry → MemStore → MemStore
unfolding insert_version estimate_size
replay_put e m = record m {
  hot = insert_version e m.hot;
  hot_size_bytes = m.hot_size_bytes + estimate_size e;
}

abbrev pub put_record : Z1Entry → WalRecord
put_record e = WalRecord.put e.key.cf e.key.key e.value

-- The log, the count of writes since the last sync, and the result.
abbrev pub Logged : Type 0
Logged = (Inner × ℕ) × Result (Unit {0})

module _ (faults : ℕ → Option IoKind) (torn : ℕ → ℕ) (c : Codec) (config : WalConfig) where
  unfoldable pub flushed : (pending : ℕ) → Inner × Result (Unit {0}) → Logged
  flushed pending (log, ok _) = ((log, 0), ok tt)
  flushed pending (log, err x) = ((log, pending), err x)

  unfoldable pub batched : (due : Bool) → (pending : ℕ) → Inner × Result (Unit {0}) → Logged
  unfolding flushed flush_and_sync
  batched due pending (log, err x) = ((log, pending), err x)
  batched due pending (log, ok _) =
      if due then flushed pending (flush_and_sync faults torn c log) else ((log, pending), ok tt)

  -- What `put` does to an attached log before it touches the memory.
  unfoldable pub log_put : SyncLevel → (elapsed : Bool) → (pending : ℕ) → Z1Entry → Inner → Logged
  unfolding append append_durable batched
  log_put immediate elapsed pending e log =
      let (log', r) = append_durable faults torn c config e.txn_id (put_record e) log in
      ((log', pending), r)
  log_put (batch max_pending) elapsed pending e log =
      batched (leb max_pending (suc pending) || elapsed) (suc pending)
        (append faults torn c config e.txn_id (put_record e) log)
  log_put async elapsed pending e log =
      (((append faults torn c config e.txn_id (put_record e) log).0, pending), ok tt)

  unfoldable pub put_logged : Z1Entry → MemStore → Logged → MemStore × Result (Unit {0})
  unfolding replay_put
  put_logged e m ((log, pending), err x) =
      (record m { wal = some log; batch_pending = pending }, err x)
  put_logged e m ((log, pending), ok _) =
      (replay_put e (record m { wal = some log; batch_pending = pending }), ok tt)

  unfoldable pub put : (elapsed : Bool) → Z1Entry → Exec MemStore (Unit {0})
  unfolding log_put put_logged
  put elapsed e m = elim m.wal [
    | none ↦ (replay_put e m, ok tt)
    | some log ↦ put_logged e m (log_put m.sync_level elapsed m.batch_pending e log)
  ]

unfoldable pub should_flush : MemStore → Bool
should_flush m = ltb m.flush_threshold m.hot_size_bytes

unfoldable pub swap_and_drain : MemStore → MemStore × List Z1Entry
swap_and_drain m = (record m { hot = []; hot_size_bytes = 0; snapshot = m.hot }, m.hot)

abbrev pub sources : MemStore → List Z1Entry
sources m = m.hot ++ (m.cold ++ m.snapshot)

unfoldable pub is_candidate : Z1Key → (snapshot_txn : ℕ) → Map ℕ → List ℕ → Z1Entry → Bool
unfolding is_visible_at_commit
is_candidate zk snapshot_txn commits active e =
    key_eq e.key zk && is_visible_at_commit e snapshot_txn commits active

-- `best.as_ref().is_none_or(|b| entry.txn_id > b.txn_id)`
unfoldable pub better : Z1Entry → Option Z1Entry → Bool
better e none = true
better e (some b) = ltb b.txn_id e.txn_id

unfoldable pub best_of : (Z1Entry → Bool) → List Z1Entry → Option Z1Entry → Option Z1Entry
unfolding better
best_of p [] best = best
best_of p (e ∷ es) best =
    best_of p es (if p e then (if better e best then some e else best) else best)

unfoldable pub get_visible : Z1Key → (snapshot_txn : ℕ) → Map ℕ → List ℕ → MemStore → Option Z1Entry
unfolding best_of is_candidate
get_visible zk snapshot_txn commits active m =
    best_of (is_candidate zk snapshot_txn commits active) (sources m) none

-- `sort_by_key(|e| e.txn_id)`, which is stable.
unfoldable pub insert_by_txn : Z1Entry → List Z1Entry → List Z1Entry
insert_by_txn e [] = e ∷ []
insert_by_txn e (f ∷ fs) =
    let rest = insert_by_txn e fs in if leb e.txn_id f.txn_id then e ∷ f ∷ fs else f ∷ rest

unfoldable pub sort_by_txn : List Z1Entry → List Z1Entry
unfolding insert_by_txn
sort_by_txn [] = []
sort_by_txn (e ∷ es) = insert_by_txn e (sort_by_txn es)

unfoldable pub get_versions : Z1Key → (snapshot_txn : ℕ) → Map ℕ → List ℕ → MemStore → List Z1Entry
unfolding sort_by_txn is_candidate retain
get_versions zk snapshot_txn commits active m =
    sort_by_txn (retain (is_candidate zk snapshot_txn commits active) (sources m))
