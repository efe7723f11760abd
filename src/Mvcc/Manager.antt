-- ===== src/Mvcc/Manager.antt =====
-- The operations of `VisibilityManager`. An operation on `&mut self` returns the new state beside
-- its result, since a failing commit changes the state too. The readings of the clock
-- (`current_timestamp_millis`) are arguments.
pub mod Snapshots
pub mod Commits
pub mod Wf
pub mod Below
pub mod Shadow
use z1kv.Common.{
  ℕ, ◌+◌, ◌-◌, ◌%◌, max, min, Bool, true, false, Option, none, some, List, [], ◌∷◌, leb, ltb,
  if◌then◌else◌,
}
use z1kv.Common.Map.{Map, get, contains_key, insert, remove, keep}
use z1kv.Common.Bytes.{Bytes}
use z1kv.Errors.{
  Result, ok, err, Z1Error, mvcc_conflict, already_active, already_committed, not_active, ssi,
}
use z1kv.Mvcc.Types.{
  TxnMeta, TxnSnapshot, IsolationLevel, snapshot, VisibilityManager, VisibilityConfig, new_meta,
  meta_record_read, meta_record_write, meta_commit,
}
use z1kv.Mvcc.Conflict.{build_index, read_conflict, write_conflict}
use z1kv.Mvcc.Prune.{prune_history, u64_mod}

unfoldable pub begin_txn : ℕ → VisibilityManager → VisibilityManager × Result (Unit {0})
unfolding contains_key insert new_meta
begin_txn txn_id vm =
    if contains_key txn_id vm.active_txns
    then (vm, err (mvcc_conflict (already_active txn_id)))
    else if leb txn_id vm.committed_txn
    then (vm, err (mvcc_conflict (already_committed txn_id)))
    else (record vm { active_txns = insert txn_id (new_meta txn_id) vm.active_txns }, ok tt)

unfoldable pub record_read : ℕ → Bytes → VisibilityManager → VisibilityManager
unfolding get insert meta_record_read
record_read txn_id key vm = elim (get txn_id vm.active_txns) [
  | none ↦ vm
  | some meta ↦ record vm { active_txns = insert txn_id (meta_record_read key meta) vm.active_txns }
]

unfoldable pub record_write : ℕ → Bytes → VisibilityManager → VisibilityManager
unfolding get insert meta_record_write
record_write txn_id key vm = elim (get txn_id vm.active_txns) [
  | none ↦ vm
  | some meta ↦ record vm {
    active_txns = insert txn_id (meta_record_write key meta) vm.active_txns;
  }
]

-- `abort_txn`, and `rollback_txn`, which calls it.
unfoldable pub abort_txn : ℕ → VisibilityManager → VisibilityManager
unfolding remove
abort_txn txn_id vm = record vm { active_txns = remove txn_id vm.active_txns }

-- The keys of the active transactions.
unfoldable pub active_ids : Map TxnMeta → List ℕ
active_ids [] = []
active_ids ((id, meta) ∷ m) = id ∷ active_ids m

-- The largest commit timestamp, 0 for none.
unfoldable pub max_commit_ts : Map (ℕ × ℕ) → ℕ
max_commit_ts [] = 0
max_commit_ts ((id, (ts, _)) ∷ h) = max ts (max_commit_ts h)

-- The history's entries with a commit timestamp of at most `limit`, without `inserted_at`.
unfoldable pub commits_until : ℕ → Map (ℕ × ℕ) → Map ℕ
commits_until limit [] = []
commits_until limit ((id, (ts, _)) ∷ h) =
    let rest = commits_until limit h in if leb ts limit then (id, ts) ∷ rest else rest

-- `snapshot_with_commit_ts_map`, and `snapshot`, which calls it.
unfoldable pub take_snapshot : IsolationLevel → VisibilityManager → TxnSnapshot
unfolding active_ids max_commit_ts commits_until
take_snapshot isolation vm =
    let snapshot_id = max vm.committed_txn (max_commit_ts vm.committed_history) in
    record {
      snapshot_id = snapshot_id;
      active_txns = active_ids vm.active_txns;
      isolation = isolation;
      commit_ts_map = commits_until snapshot_id vm.committed_history;
    }

-- `self.begin_txn(txn_id)?`, then the snapshot.
unfoldable pub with_snapshot :
    IsolationLevel → VisibilityManager × Result (Unit {0}) → VisibilityManager × Result TxnSnapshot
unfolding take_snapshot
with_snapshot isolation (vm, ok _) = (vm, ok (take_snapshot isolation vm))
with_snapshot isolation (vm, err e) = (vm, err e)

unfoldable pub begin_txn_with_snapshot :
    ℕ → IsolationLevel → VisibilityManager → VisibilityManager × Result TxnSnapshot
unfolding begin_txn with_snapshot
begin_txn_with_snapshot txn_id isolation vm = with_snapshot isolation (begin_txn txn_id vm)

-- The transactions that had begun at `txn_id`.
unfoldable pub active_ids_at : ℕ → Map TxnMeta → List ℕ
active_ids_at limit [] = []
active_ids_at limit ((id, meta) ∷ m) =
    let rest = active_ids_at limit m in if leb meta.begin_ts limit then id ∷ rest else rest

unfoldable pub snapshot_at : ℕ → IsolationLevel → VisibilityManager → TxnSnapshot
unfolding active_ids_at commits_until
snapshot_at txn_id isolation vm = record {
  snapshot_id = txn_id;
  active_txns = active_ids_at txn_id vm.active_txns;
  isolation = isolation;
  commit_ts_map = commits_until txn_id vm.committed_history;
}

-- The commit proper, after the conflict detection has passed.
unfoldable pub finish_commit :
    (txn_id inserted_at ts now_ms : ℕ) → TxnMeta → VisibilityManager → VisibilityManager
unfolding insert remove prune_history meta_commit
finish_commit txn_id inserted_at ts now_ms meta vm =
    let recorded : VisibilityManager = record vm {
      committed_txn = if ltb vm.committed_txn txn_id then txn_id else vm.committed_txn;
      active_txns = insert txn_id (meta_commit ts meta) vm.active_txns;
      committed_history = insert txn_id (ts, inserted_at) vm.committed_history;
      commit_seq = (vm.commit_seq + 1) % u64_mod;
      committed_ts_shadow = insert txn_id ts vm.committed_ts_shadow;
    } in
    let pruned = prune_history now_ms recorded in
    record pruned { active_txns = remove txn_id pruned.active_txns }

-- `ts` is the commit timestamp and `now_ms` the time that the pruning reads.
unfoldable pub commit_txn :
    (txn_id inserted_at ts now_ms : ℕ) → VisibilityManager → VisibilityManager × Result TxnSnapshot
unfolding get remove abort_txn build_index read_conflict write_conflict finish_commit take_snapshot
commit_txn txn_id inserted_at ts now_ms vm = elim (get txn_id vm.active_txns) [
  | none ↦ (vm, err (mvcc_conflict (not_active txn_id)))
  | some meta ↦
      let others = remove txn_id vm.active_txns in
      let key_writers = build_index (λ m. m.written_keys) others [] in
      let key_readers = build_index (λ m. m.read_keys) others [] in
      elim (read_conflict meta.read_keys key_writers) [
        | some other ↦ (abort_txn txn_id vm, err (mvcc_conflict (ssi txn_id other true false)))
        | none ↦ elim (write_conflict meta.written_keys key_readers key_writers) [
          | some other ↦ (abort_txn txn_id vm, err (mvcc_conflict (ssi txn_id other false true)))
          | none ↦
              let vm' = finish_commit txn_id inserted_at ts now_ms meta vm in
              (vm', ok (take_snapshot snapshot vm'))
        ]
      ]
]

-- `recover_committed_history_with_config`; `recover_committed_history` passes no override and an
-- empty `wal_inserted_at`.
unfoldable pub recover_entries : Map ℕ → (now : ℕ) → Map ℕ → VisibilityManager → VisibilityManager
unfolding get insert
recover_entries [] now wal_inserted_at vm = vm
recover_entries ((txn_id, commit_ts) ∷ history) now wal_inserted_at vm =
    let inserted_at : ℕ = elim (get txn_id wal_inserted_at) [ some t ↦ t | none ↦ now ] in
    recover_entries history now wal_inserted_at (record vm {
      committed_history = insert txn_id (commit_ts, inserted_at) vm.committed_history;
      committed_txn = if ltb vm.committed_txn txn_id then txn_id else vm.committed_txn;
    })

unfoldable pub recover_committed_history :
    Map ℕ → Option VisibilityConfig → Map ℕ → (now : ℕ) → VisibilityManager → VisibilityManager
unfolding recover_entries
recover_committed_history history config_override wal_inserted_at now vm =
    let vm' : VisibilityManager = record vm {
      config = elim config_override [ none ↦ vm.config | some cfg ↦ cfg ];
      committed_history = [];
    } in
    recover_entries history now wal_inserted_at vm'

-- The least `begin_ts`, `u64::MAX` for none.
unfoldable pub oldest_begin_ts : Map TxnMeta → ℕ
oldest_begin_ts [] = u64_mod - 1
oldest_begin_ts ((id, meta) ∷ m) = min meta.begin_ts (oldest_begin_ts m)

unfoldable pub get_begin_ts : ℕ → VisibilityManager → Option ℕ
unfolding get
get_begin_ts txn_id vm = elim (get txn_id vm.active_txns) [
  | none ↦ none
  | some meta ↦ some meta.begin_ts
]

unfoldable pub get_commit_ts : ℕ → VisibilityManager → Option ℕ
unfolding get
get_commit_ts txn_id vm = elim (get txn_id vm.committed_history) [ none ↦ none | some v ↦ some v.0 ]
