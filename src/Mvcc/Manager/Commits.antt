-- ===== src/Mvcc/Manager/Commits.antt =====
-- `commit_txn` of mvcc/visibility.rs: its decision, and what its snapshot shows.
use z1kv.Common.{
  ℕ, ◌≡◌, ◌≤◌, ◌<◌, refl, Bool, true, false, Option, none, some, [], Option-cases, inl, inr, length,
  if◌then◌else◌, arith,
}
use z1kv.Common.Map.{
  Map, get, remove, get-insert, contains_key-get, length-insert-le, Distinct-insert,
}
use z1kv.Errors.{ok, is_ok}
use z1kv.Mvcc.Types.{TxnMeta, TxnSnapshot, snapshot, VisibilityManager}
use z1kv.Mvcc.Filter.{is_visible}
use z1kv.Mvcc.Conflict.{KeyIndex, build_index, read_conflict, write_conflict}
use z1kv.Mvcc.Conflict.Laws.{
  double_loop_conflict, found, read_conflict-any_held, write_conflict-any_held,
}
use z1kv.Mvcc.Prune.{ttl_cutoff}
use z1kv.Mvcc.Prune.Ages.{get-prune_history}
use z1kv.Mvcc.Manager.{abort_txn, finish_commit, commit_txn, take_snapshot}
use z1kv.Mvcc.Manager.Wf.{Wf, recorded, finish_commit-Wf}
use z1kv.Mvcc.Manager.Snapshots.{take_snapshot-visible, delete_committed}

otherwise : (b : Bool) (P Q : Type 0) → b ≡ false → (if b then P else Q) → Q
otherwise false P Q h q = q
otherwise true P Q h p = cc

found-none : {o : Option ℕ} {b : Bool} → o ≡ none → found o ≡ b → b ≡ false
found-none p q = cc

found-some : {o : Option ℕ} {b : Bool} {id : ℕ} → o ≡ some id → found o ≡ b → b ≡ true
found-some p q = cc

module _ (txn_id inserted_at ts now_ms : ℕ) (vm : VisibilityManager) (meta : TxnMeta)
    (active : get txn_id vm.active_txns ≡ some meta) where
  abbrev others : Map TxnMeta
  others = remove txn_id vm.active_txns

  abbrev writers : KeyIndex
  writers = build_index (λ m. m.written_keys) others []

  abbrev readers : KeyIndex
  readers = build_index (λ m. m.read_keys) others []

  -- An active transaction commits exactly when the double loop over the other active transactions
  -- finds no conflict; a transaction in conflict is only taken off the active ones: nothing is
  -- committed, and the call fails.
  pub commit_txn-decides :
      if double_loop_conflict meta others
      then ((commit_txn txn_id inserted_at ts now_ms vm).0 ≡ abort_txn txn_id vm)
        × (is_ok (commit_txn txn_id inserted_at ts now_ms vm).1 ≡ false)
      else (let vm' = finish_commit txn_id inserted_at ts now_ms meta vm in
          commit_txn txn_id inserted_at ts now_ms vm ≡ (vm', ok (take_snapshot snapshot vm')))
  unfolding commit_txn double_loop_conflict
  commit_txn-decides = elim (Option-cases (read_conflict meta.read_keys writers)) [
    | inr (o, c) ↦
        rw (found-some c (read_conflict-any_held others meta.read_keys))
          (rw (active, c, commit_txn) (refl, refl))
    | inl c ↦ elim (Option-cases (write_conflict meta.written_keys readers writers)) [
      | inr (o, d) ↦
          rw
            (
              found-none c (read_conflict-any_held others meta.read_keys),
              found-some d (write_conflict-any_held others meta.written_keys),
            )
            (rw (active, c, d, commit_txn) (refl, refl))
      | inl d ↦
          rw
            (
              found-none c (read_conflict-any_held others meta.read_keys),
              found-none d (write_conflict-any_held others meta.written_keys),
            )
            (rw (active, c, d, commit_txn) refl)
    ]
  ]

  module _ (w : Wf vm) (room : length vm.committed_history < vm.config.max_history_entries)
      (young : ttl_cutoff now_ms vm ≤ inserted_at) where
    get-finish_commit_self :
        get txn_id (finish_commit txn_id inserted_at ts now_ms meta vm).committed_history
        ≡ some (ts, inserted_at)
    unfolding finish_commit ttl_cutoff
    get-finish_commit_self =
        get-prune_history now_ms txn_id (ts, inserted_at) (recorded txn_id inserted_at ts meta vm)
          (Distinct-insert txn_id (ts, inserted_at) vm.committed_history w.distinct_history)
          (omega (arith, length-insert-le {0} txn_id (ts, inserted_at) vm.committed_history))
          (ground (arith, get-insert txn_id txn_id (ts, inserted_at) vm.committed_history)) young

  -- Read your commits: the commit of an active transaction without a conflict succeeds, and the
  -- snapshot that it returns shows the rows of the transaction, if the history is below its limit
  -- and the insertion time is not before the cutoff of the eviction by age.
  pub commit_txn-shows :
      Wf vm
      → length vm.committed_history < vm.config.max_history_entries
      → ttl_cutoff now_ms vm ≤ inserted_at
      → double_loop_conflict meta others ≡ false
      → (vm' : VisibilityManager) × (s : TxnSnapshot) × (commit_txn txn_id inserted_at ts now_ms vm
          ≡ (vm', ok s))
        × (is_visible s txn_id none ≡ true)
  unfolding delete_committed
  commit_txn-shows w room young free =
      let vm' : VisibilityManager = finish_commit txn_id inserted_at ts now_ms meta vm in
      (
        vm',
        take_snapshot snapshot vm',
        otherwise _ _ _ free commit_txn-decides,
        ground (
          arith,
          take_snapshot-visible snapshot vm'
              (finish_commit-Wf txn_id inserted_at ts now_ms meta vm w) txn_id none,
          contains_key-get txn_id vm'.committed_history,
          get-finish_commit_self w room young,
        ),
      )
