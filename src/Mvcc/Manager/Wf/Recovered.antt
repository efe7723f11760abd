-- ===== src/Mvcc/Manager/Wf/Recovered.antt =====
-- The invariant of the manager and `recover_committed_history_with_config`.
use z1kv.Common.{ℕ, ◌≡◌, refl, ap, sym, ◌∙◌, Option, none, some, [], ◌∷◌, ltb, if◌then◌else◌, arith}
use z1kv.Common.Map.{Map, get, insert, get-insert, Distinct-insert}
use z1kv.Mvcc.Types.{VisibilityManager, VisibilityConfig}
use z1kv.Mvcc.Manager.{recover_entries, recover_committed_history}
use z1kv.Mvcc.Manager.Wf.{Wf}

none≢some {ℓ} : {A : Type ℓ} {a : A} → ¬ (none ≡ some a)
none≢some h = cc

recover_entry-Wf :
    (txn_id : ℕ) (v : ℕ × ℕ) (vm : VisibilityManager)
    → vm.active_txns ≡ []
    → Wf vm
    → Wf (record vm {
      committed_history = insert txn_id v vm.committed_history;
      committed_txn = if ltb vm.committed_txn txn_id then txn_id else vm.committed_txn;
    })
unfolding get
recover_entry-Wf txn_id v vm idle w = record {
  distinct_active = w.distinct_active;
  distinct_history = Distinct-insert txn_id v vm.committed_history w.distinct_history;
  history_le =
      λ k u e. ground (arith, get-insert txn_id k v vm.committed_history, w.history_le k u);
  disjoint = λ k m e. absurd (none≢some (sym (ap (get k) idle) ∙ e));
  begun = w.begun;
}

recover_entries-Wf :
    (history : Map ℕ) (now : ℕ) (ins : Map ℕ) (vm : VisibilityManager)
    → vm.active_txns ≡ []
    → Wf vm
    → Wf (recover_entries history now ins vm)
unfolding recover_entries
recover_entries-Wf [] now ins vm idle w = w
recover_entries-Wf ((txn_id, commit_ts) ∷ history) now ins vm idle w =
    recover_entries-Wf history now ins _ idle (recover_entry-Wf txn_id _ vm idle w)

-- Recovery on a manager with no active transaction, as `open` calls it, keeps the invariant.
pub recover_committed_history-Wf :
    (history : Map ℕ) (override : Option VisibilityConfig) (ins : Map ℕ) (now : ℕ)
    (vm : VisibilityManager)
    → vm.active_txns ≡ []
    → Wf vm
    → Wf (recover_committed_history history override ins now vm)
unfolding recover_committed_history get
recover_committed_history-Wf history override ins now vm idle w =
    recover_entries-Wf history now ins _ idle (record {
      distinct_active = w.distinct_active;
      distinct_history = tt;
      history_le = λ k v e. ground arith;
      disjoint = λ k m e. refl;
      begun = w.begun;
    })
