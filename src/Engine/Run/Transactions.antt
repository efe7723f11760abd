-- ===== src/Engine/Run/Transactions.antt =====
-- `put`, `delete`, `rollback` and `commit` keep the invariant of the engine.
use z1kv.Common.{ℕ, ◌≡◌, ◌∙◌, refl, sym, ap, subst, Option-cases, inl, inr}
use z1kv.Common.Map.{get}
use z1kv.Common.Bytes.{Bytes}
use z1kv.Errors.{Result, ok, err}
use z1kv.Effects.{Exec, pure, continue, ◌>>=◌, ◌>>◌}
use z1kv.Mvcc.Types.{TxnSnapshot, VisibilityManager}
use z1kv.Mvcc.Manager.{commit_txn, abort_txn, record_read, record_write}
use z1kv.Mvcc.Manager.Below.{Below, record_write-Below, abort_txn-Below, commit_txn-Decided}
use z1kv.Mvcc.Cache.{invalidate}
use z1kv.Store.Types.{Z1Entry}
use z1kv.Store.Mem as mem
use z1kv.Txn.Protocol.{apply_all}
use z1kv.Wal.Record as record_kind
use z1kv.Wal.Writer.{append, append_durable}
use z1kv.Engine.{World, Engine, on_wal, conflict_key}
use z1kv.Engine.Reads.{snapshot_now}
use z1kv.Engine.Transactions.{
  Clock, ensure_active_txn, invalidate_cache, forget_snapshot, engine_applier, commit_protocol,
  apply_mvcc_commit, after_apply, commit, rollback, write_entry, on_l1, maybe_auto_maintain,
}
use z1kv.Engine.Transactions.Untouched.{Leaves, on_wal-Leaves, maybe_auto_maintain-Leaves}
use z1kv.Engine.Run.Sound.{
  Sound, Keeps, same-Sound, Untouched-Sound, >>=-Keeps, Leaves-Keeps, moved-Sound, cleared-Sound,
  ensure_active_txn-Keeps, current_snapshot-Shown,
}

-- Neither reading nor writing a key changes the history.
record_write-history :
    (id : ℕ) (key : Bytes) (vm : VisibilityManager)
    → (record_write id key vm).committed_history ≡ vm.committed_history
unfolding record_write
record_write-history id key vm = elim (Option-cases (get id vm.active_txns)) [
  | inl gone ↦ rw (gone, record_write) refl
  | inr (m, found) ↦ rw (found, record_write) refl
]

pub record_read-history :
    (id : ℕ) (key : Bytes) (vm : VisibilityManager)
    → (record_read id key vm).committed_history ≡ vm.committed_history
unfolding record_read
record_read-history id key vm = elim (Option-cases (get id vm.active_txns)) [
  | inl gone ↦ rw (gone, record_read) refl
  | inr (m, found) ↦ rw (found, record_read) refl
]

on_l1-Leaves : {A : Type 0} (w : World) (m : Exec mem.MemStore A) → Leaves (on_l1 w m)
on_l1-Leaves w m e = record {
  mvcc_same = refl;
  snapshots_same = refl;
  cache_same = refl;
  counter_same = refl;
}

module _ (w : World) where
  pub snapshot_now-Keeps : Keeps (snapshot_now w)
  unfolding snapshot_now
  snapshot_now-Keeps e s = (current_snapshot-Shown e s).sound

  pub write_entry-Keeps : (entry : Z1Entry) → Keeps (write_entry w entry)
  unfolding write_entry
  write_entry-Keeps entry =
      >>=-Keeps (ensure_active_txn entry.txn_id) (λ t. records >>= λ t. logs)
        (ensure_active_txn-Keeps entry.txn_id)
        (λ t.
          >>=-Keeps records (λ t. logs) recorded
            (λ t.
              Leaves-Keeps logs
                (on_l1-Leaves w (mem.put w.faults w.torn w.codec w.wal_config w.elapsed entry))))
    where
      key : Bytes
      key = conflict_key entry.key.cf entry.key.key

      records : Exec Engine (Unit {0})
      records e = (record e { mvcc = record_write entry.txn_id key e.mvcc }, ok tt)

      logs : Exec Engine (Unit {0})
      logs = on_l1 w (mem.put w.faults w.torn w.codec w.wal_config w.elapsed entry)

      recorded : Keeps records
      recorded e s =
          moved-Sound e (record_write entry.txn_id key e.mvcc) s
            (record_write-Below e.txn_counter e.mvcc s.below entry.txn_id key)
            (record_write-history entry.txn_id key e.mvcc)

  pub rollback-Keeps : (id : ℕ) → Keeps (rollback w id)
  unfolding rollback abort_txn
  rollback-Keeps id =
      >>=-Keeps (ensure_active_txn id) (λ t. invalidate_cache >>= λ t. logs >>= λ t. ends)
        (ensure_active_txn-Keeps id)
        (λ t.
          >>=-Keeps invalidate_cache (λ t. logs >>= λ t. ends)
            (λ e s. cleared-Sound e e.mvcc s s.below)
            (λ t.
              >>=-Keeps logs (λ t. ends)
                (Leaves-Keeps logs (
                  on_wal-Leaves
                    (append w.faults w.torn w.codec w.wal_config id record_kind.rollback)))
                (λ t. aborts)))
    where
      logs : Exec Engine (Unit {0})
      logs = on_wal (append w.faults w.torn w.codec w.wal_config id record_kind.rollback)

      ends : Exec Engine (Unit {0})
      ends e = (forget_snapshot id (record e { mvcc = abort_txn id e.mvcc }), ok tt)

      aborts : Keeps ends
      aborts e s =
          same-Sound (record e { mvcc = abort_txn id e.mvcc }) (ends e).0 refl refl refl
            (moved-Sound e (abort_txn id e.mvcc) s (abort_txn-Below e.txn_counter e.mvcc s.below id)
              refl)

  module _ (clock : Clock) (id : ℕ) where
    abbrev decided : VisibilityManager → VisibilityManager × Result TxnSnapshot
    decided mvcc = commit_txn id clock.inserted_at clock.commit_ts clock.prune_ms mvcc

    abbrev finish : Exec Engine (Unit {0})
    finish e =
        after_apply w clock id (apply_all (engine_applier w clock) (commit_protocol w clock id) e)

    finish-Keeps : Keeps finish
    unfolding after_apply apply_all apply_mvcc_commit
    finish-Keeps e s = go (decided e.mvcc) refl
      where
        go :
            (p : VisibilityManager × Result TxnSnapshot)
            → decided e.mvcc ≡ p
            → Sound
                (after_apply w clock id (
                  continue
                    (λ t. (pure tt >> (invalidate_cache >> pure tt)))
                    (continue {B = Unit {0}} (λ s. pure tt) (record e { mvcc = p.0 }, p.1)))).0
        go (vm, ok snap) d =
            let cleared : Engine = record e {
              mvcc = vm;
              snapshot_cache = invalidate e.snapshot_cache;
            } in
            Untouched-Sound (forget_snapshot id cleared)
              (maybe_auto_maintain w clock.checkpoint_ms (forget_snapshot id cleared)).0
              (maybe_auto_maintain-Leaves w clock.checkpoint_ms (forget_snapshot id cleared))
              (same-Sound cleared (forget_snapshot id cleared) refl refl refl (
                cleared-Sound e vm s (
                  subst (λ p. Below e.txn_counter p.0) d
                    (commit_txn-Decided e.txn_counter e.mvcc s.below id clock.inserted_at
                      clock.commit_ts clock.prune_ms).below)))
        go (vm, err x) d =
            let m =
              commit_txn-Decided e.txn_counter e.mvcc s.below id clock.inserted_at clock.commit_ts
                clock.prune_ms in
            same-Sound (record e { mvcc = vm }) (forget_snapshot id (record e { mvcc = vm })) refl
              refl refl
              (moved-Sound e vm s (subst (λ p. Below e.txn_counter p.0) d m.below)
                (ap (λ p. p.0.committed_history) (sym d) ∙ m.history x (ap (λ p. p.1) d)))

    pub commit-Keeps : Keeps (commit w clock id)
    unfolding commit
    commit-Keeps =
        >>=-Keeps (ensure_active_txn id) (λ t. logs >>= λ t. finish) (ensure_active_txn-Keeps id)
          (λ t.
            >>=-Keeps logs (λ t. finish)
              (Leaves-Keeps logs (
                on_wal-Leaves (
                  append_durable w.faults w.torn w.codec w.wal_config id
                    (record_kind.commit id clock.inserted_at))))
              (λ t. finish-Keeps))
      where
        logs : Exec Engine (Unit {0})
        logs = on_wal (
            append_durable w.faults w.torn w.codec w.wal_config id
              (record_kind.commit id clock.inserted_at))
