-- ===== src/Mvcc/Manager/Wf.antt =====
-- The invariant of the manager's state, over the operations of mvcc/visibility.rs.
pub mod Recovered
pub mod Histories
use z1kv.Common.{
  ℕ, ◌≡◌, ◌≤◌, ◌+◌, ◌%◌, refl, ap, sym, ◌∙◌, Option, none, some, [], ◌∷◌, ltb, leb, ◌==◌,
  Option-cases, Bool-cases, inl, inr, if◌then◌else◌, arith,
}
use z1kv.Common.Map.{
  Map, get, insert, remove, contains_key, Distinct, get-insert, get-remove, Distinct-insert,
  Distinct-remove,
}
use z1kv.Common.Bytes.{Bytes}
use z1kv.Mvcc.Types.{
  TxnMeta, VisibilityManager, VisibilityConfig, new_meta, new_with_config, meta_record_read,
  meta_record_write, meta_commit,
}
use z1kv.Mvcc.Prune.{prune_history, u64_mod}
use z1kv.Mvcc.Prune.Keeps.{Pruned, prune_history-Pruned}
use z1kv.Mvcc.Conflict.{KeyIndex, build_index, read_conflict, write_conflict}
use z1kv.Mvcc.Manager.{
  begin_txn, record_read, record_write, abort_txn, finish_commit, commit_txn, recover_entries,
  recover_committed_history,
}

pub record Wf (vm : VisibilityManager) : Type 0 where
  pub distinct_active : Distinct vm.active_txns
  pub distinct_history : Distinct vm.committed_history
  -- No committed transaction is past `committed_txn`.
  pub history_le : (k : ℕ) (v : ℕ × ℕ) → get k vm.committed_history ≡ some v → k ≤ vm.committed_txn
  -- No active transaction is committed.
  pub disjoint :
      (k : ℕ) (m : TxnMeta) → get k vm.active_txns ≡ some m → get k vm.committed_history ≡ none
  -- A transaction begins at its own id.
  pub begun : (k : ℕ) (m : TxnMeta) → get k vm.active_txns ≡ some m → m.begin_ts ≡ k

pub new-Wf : (config : VisibilityConfig) → Wf (new_with_config config)
unfolding new_with_config get
new-Wf config = record {
  distinct_active = tt;
  distinct_history = tt;
  history_le = λ k v e. ground arith;
  disjoint = λ k m e. refl;
  begun = λ k m e. ground arith;
}

-- `begin_txn` keeps the invariant, whether it registers the transaction or refuses it.
pub begin_txn-Wf : (txn_id : ℕ) (vm : VisibilityManager) → Wf vm → Wf (begin_txn txn_id vm).0
unfolding begin_txn new_meta
begin_txn-Wf txn_id vm w = elim (Bool-cases (contains_key txn_id vm.active_txns)) [
  | inl busy ↦ rw busy w
  | inr idle ↦ elim (Bool-cases (leb txn_id vm.committed_txn)) [
    | inl old ↦ rw (idle, old) w
    | inr fresh ↦
        rw (idle, fresh)
          (record {
            distinct_active =
                Distinct-insert txn_id (new_meta txn_id) vm.active_txns w.distinct_active;
            distinct_history = w.distinct_history;
            history_le = w.history_le;
            disjoint = λ k m e. elim (Option-cases (get k vm.committed_history)) [
              | inl gone ↦ gone
              | inr (v, found) ↦ ground (
                arith,
                get-insert txn_id k (new_meta txn_id) vm.active_txns,
                w.history_le k v found,
                w.disjoint k m,
              )
            ];
            begun = λ k m e.
                ground (arith, get-insert txn_id k (new_meta txn_id) vm.active_txns, w.begun k m);
          })
  ]
]

-- Replacing the metadata of an active transaction by one with the same `begin_ts`.
update-Wf :
    (txn_id : ℕ) (old new : TxnMeta) (vm : VisibilityManager)
    → get txn_id vm.active_txns ≡ some old
    → new.begin_ts ≡ old.begin_ts
    → Wf vm
    → Wf (record vm { active_txns = insert txn_id new vm.active_txns })
update-Wf txn_id old new vm found same w = record {
  distinct_active = Distinct-insert txn_id new vm.active_txns w.distinct_active;
  distinct_history = w.distinct_history;
  history_le = w.history_le;
  disjoint = λ k m e.
      ground (
        arith,
        get-insert txn_id k new vm.active_txns,
        w.disjoint k m,
        w.disjoint txn_id old found,
      );
  begun = λ k m e.
      ground (arith, get-insert txn_id k new vm.active_txns, w.begun k m, w.begun txn_id old found);
}

pub record_read-Wf :
    (txn_id : ℕ) (key : Bytes) (vm : VisibilityManager) → Wf vm → Wf (record_read txn_id key vm)
unfolding record_read meta_record_read
record_read-Wf txn_id key vm w = elim (Option-cases (get txn_id vm.active_txns)) [
  | inl gone ↦ rw (gone, record_read) w
  | inr (m, found) ↦
      rw (found, record_read) (update-Wf txn_id m (meta_record_read key m) vm found refl w)
]

pub record_write-Wf :
    (txn_id : ℕ) (key : Bytes) (vm : VisibilityManager) → Wf vm → Wf (record_write txn_id key vm)
unfolding record_write meta_record_write
record_write-Wf txn_id key vm w = elim (Option-cases (get txn_id vm.active_txns)) [
  | inl gone ↦ rw (gone, record_write) w
  | inr (m, found) ↦
      rw (found, record_write) (update-Wf txn_id m (meta_record_write key m) vm found refl w)
]

pub abort_txn-Wf : (txn_id : ℕ) (vm : VisibilityManager) → Wf vm → Wf (abort_txn txn_id vm)
unfolding abort_txn
abort_txn-Wf txn_id vm w = record {
  distinct_active = Distinct-remove txn_id vm.active_txns w.distinct_active;
  distinct_history = w.distinct_history;
  history_le = w.history_le;
  disjoint = λ k m e. ground (arith, get-remove txn_id k vm.active_txns, w.disjoint k m);
  begun = λ k m e. ground (arith, get-remove txn_id k vm.active_txns, w.begun k m);
}

-- The state of `finish_commit` before the pruning.
abbrev pub recorded : (txn_id inserted_at ts : ℕ) → TxnMeta → VisibilityManager → VisibilityManager
recorded txn_id inserted_at ts meta vm = record vm {
  committed_txn = if ltb vm.committed_txn txn_id then txn_id else vm.committed_txn;
  active_txns = insert txn_id (meta_commit ts meta) vm.active_txns;
  committed_history = insert txn_id (ts, inserted_at) vm.committed_history;
  commit_seq = (vm.commit_seq + 1) % u64_mod;
  committed_ts_shadow = insert txn_id ts vm.committed_ts_shadow;
}

module _ (txn_id inserted_at ts now_ms : ℕ) (meta : TxnMeta) (vm : VisibilityManager) where
  -- The state that the pruning of `finish_commit` returns.
  abbrev pub pruned : VisibilityManager
  pruned = prune_history now_ms (recorded txn_id inserted_at ts meta vm)

  pub finish_commit-Pruned : Wf vm → Pruned (recorded txn_id inserted_at ts meta vm) pruned
  finish_commit-Pruned w =
      prune_history-Pruned now_ms (recorded txn_id inserted_at ts meta vm)
        (Distinct-insert txn_id (ts, inserted_at) vm.committed_history w.distinct_history)

  -- The active transactions after a commit are those before it, without the committed one.
  pub get-active-finish_commit :
      Wf vm
      → (k : ℕ)
      → get k (finish_commit txn_id inserted_at ts now_ms meta vm).active_txns
        ≡ (if txn_id == k then none else get k vm.active_txns)
  unfolding finish_commit
  get-active-finish_commit w k = rw ((finish_commit-Pruned w).active_txns) (
      ground (
        arith,
        get-remove txn_id k (insert txn_id (meta_commit ts meta) vm.active_txns),
        get-insert txn_id k (meta_commit ts meta) vm.active_txns,
      ))

  -- An entry of the history after a commit is the new one or an old one.
  pub get-history-finish_commit :
      Wf vm
      → (k : ℕ) (v : ℕ × ℕ)
      → get k (finish_commit txn_id inserted_at ts now_ms meta vm).committed_history ≡ some v
      → (if txn_id == k then some (ts, inserted_at) else get k vm.committed_history) ≡ some v
  unfolding finish_commit
  get-history-finish_commit w k v e = ground (
    arith,
    (finish_commit-Pruned w).sub k v e,
    get-insert txn_id k (ts, inserted_at) vm.committed_history,
  )

  pub committed_txn-finish_commit :
      Wf vm
      → (finish_commit txn_id inserted_at ts now_ms meta vm).committed_txn
        ≡ (if ltb vm.committed_txn txn_id then txn_id else vm.committed_txn)
  unfolding finish_commit
  committed_txn-finish_commit w = (finish_commit-Pruned w).committed_txn

  finish_commit-Distinct_active :
      Wf vm → Distinct (finish_commit txn_id inserted_at ts now_ms meta vm).active_txns
  unfolding finish_commit
  finish_commit-Distinct_active w = rw ((finish_commit-Pruned w).active_txns) (
      Distinct-remove txn_id (insert txn_id (meta_commit ts meta) vm.active_txns)
        (Distinct-insert txn_id (meta_commit ts meta) vm.active_txns w.distinct_active))

  finish_commit-Distinct_history :
      Wf vm → Distinct (finish_commit txn_id inserted_at ts now_ms meta vm).committed_history
  unfolding finish_commit
  finish_commit-Distinct_history w = (finish_commit-Pruned w).distinct

  pub finish_commit-Wf : Wf vm → Wf (finish_commit txn_id inserted_at ts now_ms meta vm)
  finish_commit-Wf w = record {
    distinct_active = finish_commit-Distinct_active w;
    distinct_history = finish_commit-Distinct_history w;
    history_le = λ k v e.
        rw (committed_txn-finish_commit w)
          (ground (arith, get-history-finish_commit w k v e, w.history_le k v));
    disjoint = λ k m e.
        elim (Option-cases
          (get k (finish_commit txn_id inserted_at ts now_ms meta vm).committed_history)) [
            | inl gone ↦ gone
            | inr (v, found) ↦ absurd (
                ground (
                  arith,
                  get-active-finish_commit w k,
                  get-history-finish_commit w k v found,
                  w.disjoint k m,
                ))
          ];
    begun = λ k m e. ground (arith, get-active-finish_commit w k, w.begun k m);
  }

-- `commit_txn` keeps the invariant on every branch: an unknown transaction, a conflict, a commit.
pub commit_txn-Wf :
    (txn_id inserted_at ts now_ms : ℕ) (vm : VisibilityManager)
    → Wf vm
    → Wf (commit_txn txn_id inserted_at ts now_ms vm).0
unfolding commit_txn
commit_txn-Wf txn_id inserted_at ts now_ms vm w = elim (Option-cases (get txn_id vm.active_txns)) [
  | inl gone ↦ rw (gone, commit_txn) w
  | inr (meta, found) ↦
      let others : Map TxnMeta = remove txn_id vm.active_txns in
      let writers : KeyIndex = build_index (λ m. m.written_keys) others [] in
      let readers : KeyIndex = build_index (λ m. m.read_keys) others [] in
      elim (Option-cases (read_conflict meta.read_keys writers)) [
        | inr (o, c) ↦ rw (found, c, commit_txn) (abort_txn-Wf txn_id vm w)
        | inl c ↦ elim (Option-cases (write_conflict meta.written_keys readers writers)) [
          | inr (o, d) ↦ rw (found, c, d, commit_txn) (abort_txn-Wf txn_id vm w)
          | inl d ↦
              rw (found, c, d, commit_txn) (finish_commit-Wf txn_id inserted_at ts now_ms meta vm w)
        ]
      ]
]
