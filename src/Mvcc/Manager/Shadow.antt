-- ===== src/Mvcc/Manager/Shadow.antt =====
-- The shadow of the commit timestamps: which operations keep it equal to the projection of the
-- history.
use z1kv.Common.{
  ℕ, ◌≡◌, refl, ap, Option, none, some, [], ◌∷◌, Option-cases, inl, inr, ltb, if◌then◌else◌, arith,
}
use z1kv.Common.Map.{Map, get, insert, remove, get-insert}
use z1kv.Mvcc.Types.{TxnMeta, VisibilityManager, VisibilityConfig, new_with_config}
use z1kv.Mvcc.Prune.Keeps.{IsShadow}
use z1kv.Mvcc.Conflict.{KeyIndex, build_index, read_conflict, write_conflict}
use z1kv.Mvcc.Manager.{
  abort_txn, finish_commit, commit_txn, recover_entries, recover_committed_history,
}
use z1kv.Mvcc.Manager.Wf.{Wf, finish_commit-Pruned}

abbrev pub HasShadow : VisibilityManager → Type 0
HasShadow vm = IsShadow vm.committed_history vm.committed_ts_shadow

finish_commit-HasShadow :
    (txn_id inserted_at ts now_ms : ℕ) (meta : TxnMeta) (vm : VisibilityManager)
    → Wf vm
    → HasShadow vm
    → HasShadow (finish_commit txn_id inserted_at ts now_ms meta vm)
unfolding finish_commit
finish_commit-HasShadow txn_id inserted_at ts now_ms meta vm w s =
    (finish_commit-Pruned txn_id inserted_at ts now_ms meta vm w).shadow λ k. ground (
      arith,
      get-insert txn_id k ts vm.committed_ts_shadow,
      get-insert txn_id k (ts, inserted_at) vm.committed_history,
      s k,
    )

-- `commit_txn` keeps the shadow equal to the projection of the history to the commit timestamps,
-- on every branch and through the evictions that it triggers.
pub commit_txn-HasShadow :
    (txn_id inserted_at ts now_ms : ℕ) (vm : VisibilityManager)
    → Wf vm
    → HasShadow vm
    → HasShadow (commit_txn txn_id inserted_at ts now_ms vm).0
unfolding commit_txn abort_txn
commit_txn-HasShadow txn_id inserted_at ts now_ms vm w s =
    elim (Option-cases (get txn_id vm.active_txns)) [
      | inl gone ↦ rw (gone, commit_txn) s
      | inr (meta, found) ↦
          let others : Map TxnMeta = remove txn_id vm.active_txns in
          let writers : KeyIndex = build_index (λ m. m.written_keys) others [] in
          let readers : KeyIndex = build_index (λ m. m.read_keys) others [] in
          elim (Option-cases (read_conflict meta.read_keys writers)) [
            | inr (o, c) ↦ rw (found, c, commit_txn) s
            | inl c ↦ elim (Option-cases (write_conflict meta.written_keys readers writers)) [
              | inr (o, d) ↦ rw (found, c, d, commit_txn) s
              | inl d ↦
                  rw (found, c, d, commit_txn)
                    (finish_commit-HasShadow txn_id inserted_at ts now_ms meta vm w s)
            ]
          ]
    ]

recover_entries-shadow :
    (history : Map ℕ) (now : ℕ) (ins : Map ℕ) (vm : VisibilityManager)
    → (recover_entries history now ins vm).committed_ts_shadow ≡ vm.committed_ts_shadow
unfolding recover_entries
recover_entries-shadow [] now ins vm = refl
recover_entries-shadow ((k, ts) ∷ history) now ins vm = recover_entries-shadow history now ins _

recover_entries-keeps :
    (history : Map ℕ) (now : ℕ) (ins : Map ℕ) (vm : VisibilityManager) (k : ℕ) (v : ℕ × ℕ)
    → get k vm.committed_history ≡ some v
    → (u : ℕ × ℕ) × (get k (recover_entries history now ins vm).committed_history ≡ some u)
unfolding recover_entries
recover_entries-keeps [] now ins vm k v e = (v, e)
recover_entries-keeps ((j, ts) ∷ history) now ins vm k v e =
    elim (Option-cases
      (get k (insert j (ts, elim (get j ins) [ some t ↦ t | none ↦ now ]) vm.committed_history))) [
        | inr (u, found) ↦ recover_entries-keeps history now ins _ k u found
        | inl gone ↦ absurd (
            ground (
              arith,
              get-insert j k (ts, elim (get j ins) [ some t ↦ t | none ↦ now ])
                  vm.committed_history,
            ))
      ]

get-single : (k : ℕ) (v : ℕ × ℕ) → get k ((k, v) ∷ []) ≡ some v
unfolding get
get-single k v = ground arith

-- Recovery of a history with at least one transaction into a manager with an empty shadow, as
-- `open` makes it, leaves a shadow that is not the projection of the history.
pub recover_committed_history-loses_shadow :
    (k ts now : ℕ) (history : Map ℕ) (override : Option VisibilityConfig) (ins : Map ℕ)
    (config : VisibilityConfig)
    → ¬ HasShadow
        (recover_committed_history ((k, ts) ∷ history) override ins now (new_with_config config))
unfolding recover_committed_history recover_entries insert new_with_config get
recover_committed_history-loses_shadow k ts now history override ins config =
    let cfg : VisibilityConfig = elim override [ none ↦ config | some c ↦ c ] in
    let v : ℕ × ℕ = (ts, elim (get k ins) [ some t ↦ t | none ↦ now ]) in
    let start : VisibilityManager = record (new_with_config config) {
      config = cfg;
      committed_txn = if ltb 0 k then k else 0;
      committed_history = (k, v) ∷ [];
    } in
    let (u, found) = recover_entries-keeps history now ins start k v (get-single k v) in
    λ s. cc (s k, found, ap (get k) (recover_entries-shadow history now ins start))
