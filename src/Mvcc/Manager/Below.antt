-- ===== src/Mvcc/Manager/Below.antt =====
-- The ids that a manager knows stay below a bound, and what changes its history.
use z1kv.Common.{ℕ, ◌≡◌, ◌<◌, refl, some, [], Option-cases, inl, inr, arith}
use z1kv.Common.Map.{Map, get, remove, get-insert, get-remove}
use z1kv.Common.Bytes.{Bytes}
use z1kv.Errors.{Result, err, Z1Error}
use z1kv.Mvcc.Types.{TxnMeta, TxnSnapshot, VisibilityManager, meta_record_read, meta_record_write}
use z1kv.Mvcc.Conflict.{KeyIndex, build_index, read_conflict, write_conflict}
use z1kv.Mvcc.Manager.{record_read, record_write, abort_txn, finish_commit, commit_txn}
use z1kv.Mvcc.Manager.Wf.{
  Wf, record_read-Wf, record_write-Wf, abort_txn-Wf, finish_commit-Wf, get-active-finish_commit,
  committed_txn-finish_commit,
}

pub record Below (bound : ℕ) (vm : VisibilityManager) : Type 0 where
  pub wf : Wf vm
  pub ahead : vm.committed_txn < bound
  pub active_below : (k : ℕ) (m : TxnMeta) → get k vm.active_txns ≡ some m → k < bound

module _ (bound : ℕ) (vm : VisibilityManager) (b : Below bound vm) where
  pub record_read-Below : (id : ℕ) (key : Bytes) → Below bound (record_read id key vm)
  unfolding record_read
  record_read-Below id key = record {
    wf = record_read-Wf id key vm b.wf;
    ahead = ground (arith, b.ahead);
    active_below = λ k m e. elim (Option-cases (get id vm.active_txns)) [
      | inl gone ↦ b.active_below k m (rw (gone, record_read) at e)
      | inr (n, found) ↦ ground (
        arith,
        found,
        get-insert id k (meta_record_read key n) vm.active_txns,
        b.active_below id n found,
        b.active_below k m,
      )
    ];
  }

  pub record_write-Below : (id : ℕ) (key : Bytes) → Below bound (record_write id key vm)
  unfolding record_write
  record_write-Below id key = record {
    wf = record_write-Wf id key vm b.wf;
    ahead = ground (arith, b.ahead);
    active_below = λ k m e. elim (Option-cases (get id vm.active_txns)) [
      | inl gone ↦ b.active_below k m (rw (gone, record_write) at e)
      | inr (n, found) ↦ ground (
        arith,
        found,
        get-insert id k (meta_record_write key n) vm.active_txns,
        b.active_below id n found,
        b.active_below k m,
      )
    ];
  }

  pub abort_txn-Below : (id : ℕ) → Below bound (abort_txn id vm)
  unfolding abort_txn
  abort_txn-Below id = record {
    wf = abort_txn-Wf id vm b.wf;
    ahead = b.ahead;
    active_below = λ k m e. ground (arith, get-remove id k vm.active_txns, b.active_below k m);
  }

  finish_commit-Below :
      (id inserted_at ts now_ms : ℕ) (meta : TxnMeta)
      → get id vm.active_txns ≡ some meta
      → Below bound (finish_commit id inserted_at ts now_ms meta vm)
  finish_commit-Below id inserted_at ts now_ms meta found = record {
    wf = finish_commit-Wf id inserted_at ts now_ms meta vm b.wf;
    ahead =
        rw (committed_txn-finish_commit id inserted_at ts now_ms meta vm b.wf)
          (ground (arith, b.ahead, b.active_below id meta found));
    active_below = λ k m e. ground (
      arith,
      get-active-finish_commit id inserted_at ts now_ms meta vm b.wf k,
      b.active_below k m,
    );
  }

  -- What a commit makes of a manager whose ids are below the bound: they stay below, and a commit that
  -- fails leaves the history as it was.
  pub record Decided (out : VisibilityManager × Result TxnSnapshot) : Type 0 where
    pub below : Below bound out.0
    pub history : (x : Z1Error) → out.1 ≡ err x → out.0.committed_history ≡ vm.committed_history

  pub commit_txn-Decided :
      (id inserted_at ts now_ms : ℕ) → Decided (commit_txn id inserted_at ts now_ms vm)
  unfolding commit_txn abort_txn
  commit_txn-Decided id inserted_at ts now_ms = elim (Option-cases (get id vm.active_txns)) [
    | inl gone ↦ rw (gone, commit_txn) (record { below = b; history = λ x h. refl })
    | inr (meta, found) ↦
        let others : Map TxnMeta = remove id vm.active_txns in
        let writers : KeyIndex = build_index (λ m. m.written_keys) others [] in
        let readers : KeyIndex = build_index (λ m. m.read_keys) others [] in
        elim (Option-cases (read_conflict meta.read_keys writers)) [
          | inr (o, c) ↦
              rw (found, c, commit_txn)
                (record { below = abort_txn-Below id; history = λ x h. refl })
          | inl c ↦ elim (Option-cases (write_conflict meta.written_keys readers writers)) [
            | inr (o, d) ↦
                rw (found, c, d, commit_txn)
                  (record { below = abort_txn-Below id; history = λ x h. refl })
            | inl d ↦
                rw (found, c, d, commit_txn)
                  (record {
                    below = finish_commit-Below id inserted_at ts now_ms meta found;
                    history = λ x h. absurd (cc);
                  })
          ]
        ]
  ]
