-- ===== src/Txn/Protocol/Laws.antt =====
-- `apply_all` of txn/protocol.rs over a list of operations that is cut in two.
use z1kv.Common.{ℕ, ◌≡◌, ◌∙◌, refl, ap, List, [], ◌∷◌, ◌++◌}
use z1kv.Errors.{Result, ok, err, Z1Error}
use z1kv.Effects.{continue}
use z1kv.Txn.Protocol.{PendingOp, CommitApplier, validate, apply_op, apply_ops, apply_all}

module _ {S : Type 0} (applier : CommitApplier S) (txn_id : ℕ) where
  cut :
      (first rest : List PendingOp)
      → ((t : S)
          → apply_ops applier txn_id (first ++ rest) t
            ≡ continue (λ _. apply_ops applier txn_id rest) (apply_ops applier txn_id first t))
      → (r : S × Result (Unit {0}))
      → continue (λ _. apply_ops applier txn_id (first ++ rest)) r
        ≡ continue
            (λ _. apply_ops applier txn_id rest)
            (continue (λ _. apply_ops applier txn_id first) r)
  cut first rest ih (t, ok _) = ih t
  cut first rest ih (t, err e) = refl

  apply_ops-append :
      (first rest : List PendingOp) (s : S)
      → apply_ops applier txn_id (first ++ rest) s
        ≡ continue (λ _. apply_ops applier txn_id rest) (apply_ops applier txn_id first s)
  unfolding apply_ops
  apply_ops-append [] rest s = refl
  apply_ops-append (op ∷ first) rest s =
      cut first rest (apply_ops-append first rest) (apply_op applier txn_id op s)

  valid :
      (before : List PendingOp) (op : PendingOp) (behind : List PendingOp) (s : S)
      → apply_all applier (record { txn_id = txn_id; pending_ops = before ++ op ∷ behind }) s
        ≡ apply_ops applier txn_id (before ++ op ∷ behind) s
  unfolding apply_all validate
  valid [] op behind s = refl
  valid (o ∷ before) op behind s = refl

  stops :
      (op : PendingOp) (behind : List PendingOp) (t : S) {u : S} {e : Z1Error}
      → apply_op applier txn_id op t ≡ (u, err e)
      → apply_ops applier txn_id (op ∷ behind) t ≡ (u, err e)
  unfolding apply_ops
  stops op behind t h = ap (continue (λ _. apply_ops applier txn_id behind)) h

  -- A commit stops at its first failing operation: if the operations before it succeed and it fails,
  -- the state and the error are those that it leaves, and none of the operations behind it runs.
  pub apply_all-stops :
      (before behind : List PendingOp) (op : PendingOp) (s t u : S) (e : Z1Error)
      → apply_ops applier txn_id before s ≡ (t, ok tt)
      → apply_op applier txn_id op t ≡ (u, err e)
      → apply_all applier (record { txn_id = txn_id; pending_ops = before ++ op ∷ behind }) s
        ≡ (u, err e)
  unfolding apply_all validate
  apply_all-stops before behind op s t u e done fails =
      valid before op behind s
      ∙ apply_ops-append before (op ∷ behind) s
      ∙ ap (continue (λ _. apply_ops applier txn_id (op ∷ behind))) done
      ∙ stops op behind t fails
