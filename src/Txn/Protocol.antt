-- ===== src/Txn/Protocol.antt =====
-- txn/protocol.rs: the pending operations of a commit, and their application in order. The engine's
-- applier is a parameter: an action on its state for each operation.
pub mod Laws
use z1kv.Common.{ℕ, Bool, List, [], ◌∷◌, ◌++◌}
use z1kv.Errors.{Result, ok, err, internal, Z1Error}
use z1kv.Effects.{Exec, pure, raise, continue, ◌>>=◌, ◌>>◌}

pub data PendingOp : Type 0 where
  mvcc_commit : (inserted_at : ℕ) → PendingOp
  put_committed_txn : (counter : ℕ) → PendingOp
  commit_txn_record : (txn_id commit_ts : ℕ) → PendingOp
  snapshot_invalidate : PendingOp

pub record CommitProtocol : Type 0 where
  pub txn_id : ℕ
  pub pending_ops : List PendingOp

unfoldable pub new_protocol : ℕ → CommitProtocol
new_protocol txn_id = record { txn_id = txn_id; pending_ops = [] }

unfoldable pub validate : CommitProtocol → Result (Unit {0})
validate p = elim p.pending_ops [ [] ↦ err internal | _ ∷ _ ↦ ok tt ]

-- `trait CommitApplier`
pub record CommitApplier (S : Type 0) : Type 0 where
  pub apply_mvcc_commit : ℕ → ℕ → Exec S (Unit {0})
  pub apply_put_committed_txn : ℕ → Exec S (Unit {0})
  pub apply_commit_txn_record : ℕ → ℕ → Exec S (Unit {0})
  pub apply_snapshot_invalidate : Exec S (Unit {0})

module _ {S : Type 0} (applier : CommitApplier S) where
  unfoldable pub apply_op : ℕ → PendingOp → Exec S (Unit {0})
  apply_op txn_id (mvcc_commit inserted_at) = applier.apply_mvcc_commit txn_id inserted_at
  apply_op txn_id (put_committed_txn counter) = applier.apply_put_committed_txn counter
  apply_op txn_id (commit_txn_record id commit_ts) = applier.apply_commit_txn_record id commit_ts
  apply_op txn_id snapshot_invalidate = applier.apply_snapshot_invalidate

  unfoldable pub apply_ops : ℕ → List PendingOp → Exec S (Unit {0})
  unfolding apply_op
  apply_ops txn_id [] = pure tt
  apply_ops txn_id (op ∷ ops) = do apply_op txn_id op; apply_ops txn_id ops

  unfoldable pub apply_all : CommitProtocol → Exec S (Unit {0})
  unfolding apply_ops validate
  apply_all p s = elim (validate p) [
    | err e ↦ (s, err e)
    | ok _ ↦ apply_ops p.txn_id p.pending_ops s
  ]
