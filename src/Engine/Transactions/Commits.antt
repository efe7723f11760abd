-- ===== src/Engine/Transactions/Commits.antt =====
-- What a commit of the engine does, whatever its maintenance does.
use z1kv.Common.{ℕ, ◌≡◌, ◌∙◌, refl, sym, ap, subst, none, some, ==_refl, arith}
use z1kv.Common.Map.{Map, get, remove, get-remove}
use z1kv.Errors.{Result, ok, err, Z1Error}
use z1kv.Effects.{Exec, pure, continue, ◌>>◌}
use z1kv.Mvcc.Types.{TxnSnapshot, VisibilityManager}
use z1kv.Mvcc.Manager.{commit_txn, get_begin_ts}
use z1kv.Mvcc.Cache.{invalidate}
use z1kv.Txn.Protocol.{apply_all}
use z1kv.Wal.Writer.{append_durable}
use z1kv.Wal.Record as record_kind
use z1kv.Engine.{World, Engine, on_wal}
use z1kv.Engine.Transactions.{
  Clock, ensure_active_txn, maybe_auto_maintain, invalidate_cache, engine_applier, commit_protocol,
  apply_mvcc_commit, after_apply, forget_snapshot, commit,
}
use z1kv.Engine.Transactions.Untouched.{on_wal-Leaves, maybe_auto_maintain-Leaves}

module _ (w : World) where
  module _ (clock : Clock) (txn_id : ℕ) where
    -- The decision of the visibility manager.
    abbrev decided : VisibilityManager → VisibilityManager × Result TxnSnapshot
    decided mvcc = commit_txn txn_id clock.inserted_at clock.commit_ts clock.prune_ms mvcc

    -- What a commit makes of an engine with this manager, once its record is in the log.
    pub record Ended (mvcc : VisibilityManager) (out : Engine × Result (Unit {0})) : Type 0 where
      pub mvcc_of : out.0.mvcc ≡ (decided mvcc).0
      pub unpinned : get txn_id out.0.txn_snapshots ≡ none
      pub result : out.1 ≡ (elim (decided mvcc).1 [ ok s ↦ ok tt | err x ↦ err x ])
      pub uncached : out.1 ≡ ok tt → out.0.snapshot_cache.full_cache ≡ none

    unpinned_after : (snaps : Map TxnSnapshot) → get txn_id (remove txn_id snaps) ≡ none
    unpinned_after snaps = ground (arith, get-remove txn_id txn_id snaps, ==_refl txn_id)

    maintained :
        (mvcc : VisibilityManager) (e : Engine) (s : TxnSnapshot)
        → (decided mvcc ≡ (e.mvcc, ok s))
        → e.snapshot_cache.full_cache ≡ none
        → Ended mvcc
            ((maybe_auto_maintain w clock.checkpoint_ms (forget_snapshot txn_id e)).0, ok tt)
    maintained mvcc e s d clean =
        let u = maybe_auto_maintain-Leaves w clock.checkpoint_ms (forget_snapshot txn_id e) in
        record {
          mvcc_of = u.mvcc_same ∙ sym (ap (λ p. p.0) d);
          unpinned = ap (get txn_id) u.snapshots_same ∙ unpinned_after e.txn_snapshots;
          result = rw d refl;
          uncached = λ h. ap (λ c. c.full_cache) u.cache_same ∙ clean;
        }

    refused :
        (mvcc : VisibilityManager) (e : Engine) (x : Z1Error)
        → decided mvcc ≡ (e.mvcc, err x)
        → Ended mvcc (forget_snapshot txn_id e, err x)
    refused mvcc e x d = record {
      mvcc_of = sym (ap (λ p. p.0) d);
      unpinned = unpinned_after e.txn_snapshots;
      result = rw d refl;
      uncached = λ h. absurd (cc);
    }

    applied :
        (e : Engine)
        → Ended e.mvcc (
            after_apply w clock txn_id
              (apply_all (engine_applier w clock) (commit_protocol w clock txn_id) e))
    unfolding after_apply apply_all apply_mvcc_commit invalidate
    applied e = go (decided e.mvcc) refl
      where
        go :
            (p : VisibilityManager × Result TxnSnapshot)
            → decided e.mvcc ≡ p
            → Ended e.mvcc (
                after_apply w clock txn_id (
                  continue
                    (λ t. (pure tt >> (invalidate_cache >> pure tt)))
                    (continue {B = Unit {0}} (λ s. pure tt) (record e { mvcc = p.0 }, p.1))))
        go (vm, ok s) d =
            maintained e.mvcc (record e { mvcc = vm; snapshot_cache = invalidate e.snapshot_cache })
              s d refl
        go (vm, err x) d = refused e.mvcc (record e { mvcc = vm }) x d

    -- The commit of an active transaction whose record reaches the log ends as the manager decides: its state and
    -- its error are the manager's, whatever the maintenance behind it does. The transaction has no pinned
    -- snapshot any more, and after a success no snapshot of before is cached.
    pub commit-Ended :
        (e logged : Engine) (begin_ts : ℕ)
        → get_begin_ts txn_id e.mvcc ≡ some begin_ts
        → on_wal
            (append_durable w.faults w.torn w.codec w.wal_config txn_id
              (record_kind.commit txn_id clock.inserted_at))
            e
          ≡ (logged, ok tt)
        → Ended e.mvcc (commit w clock txn_id e)
    unfolding commit ensure_active_txn
    commit-Ended e logged begin_ts active h =
        subst (Ended e.mvcc)
          (sym (ap (continue (λ t. logs >> finish)) enters ∙ ap (continue (λ t. finish)) h))
          (subst (λ m. Ended m (finish logged)) same (applied logged))
      where
        logs : Exec Engine (Unit {0})
        logs = on_wal (
            append_durable w.faults w.torn w.codec w.wal_config txn_id
              (record_kind.commit txn_id clock.inserted_at))

        finish : Exec Engine (Unit {0})
        finish e =
            after_apply w clock txn_id
              (apply_all (engine_applier w clock) (commit_protocol w clock txn_id) e)

        enters : ensure_active_txn txn_id e ≡ (e, ok tt)
        enters = rw (active, ensure_active_txn) refl

        same : logged.mvcc ≡ e.mvcc
        same =
            ap (λ (p : Engine × Result (Unit {0})). p.0.mvcc) (sym h)
            ∙ (on_wal-Leaves
                (append_durable w.faults w.torn w.codec w.wal_config txn_id
                  (record_kind.commit txn_id clock.inserted_at))
                e).mvcc_same
