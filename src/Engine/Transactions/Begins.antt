-- ===== src/Engine/Transactions/Begins.antt =====
-- A transaction of a sound engine begins at the first attempt.
use z1kv.Common.{
  ℕ, suc, ◌+◌, ◌-◌, ◌≡◌, ◌<◌, refl, sym, ap, true, false, none, some, subst, ==_refl, ◌==◌,
  Option-cases, inl, inr, arith,
}
use z1kv.Common.Map.{get, insert, contains_key, contains_key-get, get-insert}
use z1kv.Errors.{Result, ok}
use z1kv.Mvcc.Types.{TxnMeta, TxnSnapshot, VisibilityManager, snapshot, new_meta}
use z1kv.Mvcc.Filter.{is_visible}
use z1kv.Mvcc.Prune.{u64_mod}
use z1kv.Mvcc.Cache.{invalidate}
use z1kv.Mvcc.Manager as manager
use z1kv.Mvcc.Manager.{take_snapshot, begin_txn_with_snapshot, with_snapshot}
use z1kv.Mvcc.Manager.Wf.{Wf, begin_txn-Wf}
use z1kv.Mvcc.Manager.Snapshots.{begin_txn_with_snapshot-isolates}
use z1kv.Engine.{Engine}
use z1kv.Engine.Transactions.{next_txn_id, begin_attempts, begin_txn, after_register}

-- The counter is past every id that the manager knows.
pub record Ready (e : Engine) : Type 0 where
  pub wf : Wf e.mvcc
  pub ahead : e.mvcc.committed_txn < e.txn_counter
  pub active_below : (k : ℕ) (m : TxnMeta) → get k e.mvcc.active_txns ≡ some m → k < e.txn_counter

module _ (e : Engine) (r : Ready e) (room : e.txn_counter < u64_mod - 1) where
  abbrev id : ℕ
  id = e.txn_counter

  abbrev entered : VisibilityManager
  entered = record e.mvcc { active_txns = insert id (new_meta id) e.mvcc.active_txns }

  idle : contains_key id e.mvcc.active_txns ≡ false
  idle = elim (Option-cases (get id e.mvcc.active_txns)) [
    | inl gone ↦ ground (arith, contains_key-get id e.mvcc.active_txns)
    | inr (m, found) ↦ absurd (omega (arith, r.active_below id m found))
  ]

  registers : manager.begin_txn id e.mvcc ≡ (entered, ok tt)
  unfolding manager.begin_txn
  registers = ground (arith, idle, r.ahead)

  pins : begin_txn_with_snapshot id snapshot e.mvcc ≡ (entered, ok (take_snapshot snapshot entered))
  unfolding begin_txn_with_snapshot with_snapshot
  pins = rw (registers, begin_txn_with_snapshot) refl

  abbrev begun : Engine
  begun = record e {
    mvcc = entered;
    snapshot_cache = invalidate e.snapshot_cache;
    txn_snapshots = insert id (take_snapshot snapshot entered) e.txn_snapshots;
    txn_counter = id + 1;
  }

  not_last : (id == u64_mod - 1) ≡ false
  not_last = ground arith

  attempt : (n : ℕ) → begin_attempts (suc n) e ≡ (begun, ok id)
  unfolding begin_attempts next_txn_id after_register
  attempt n =
      rw (not_last, next_txn_id)
        (ap
          (after_register id (begin_attempts n)
            (record e { txn_counter = id + 1; snapshot_cache = invalidate e.snapshot_cache }))
          pins)

  entered-Wf : Wf entered
  entered-Wf = subst Wf (ap (λ p. p.0) registers) (begin_txn-Wf id e.mvcc r.wf)

  begun-Ready : Ready begun
  begun-Ready = record {
    wf = entered-Wf;
    ahead = omega (arith, r.ahead);
    active_below = λ k m found.
        ground (arith, get-insert id k (new_meta id) e.mvcc.active_txns, r.active_below k m);
  }

  -- What `begin_txn` makes of the engine.
  pub record Began (out : Engine × Result ℕ) : Type 0 where
    pub result : out.1 ≡ ok id
    pub ready : Ready out.0
    pub registered : contains_key id out.0.mvcc.active_txns ≡ true
    pub pinned :
        (s : TxnSnapshot) × (get id out.0.txn_snapshots ≡ some s)
        × ((created : ℕ)
            → is_visible s created none ≡ contains_key created e.mvcc.committed_history)
    pub counter : out.0.txn_counter ≡ id + 1
    pub uncached : out.0.snapshot_cache.full_cache ≡ none

  begun-Began : Began (begun, ok id)
  unfolding invalidate
  begun-Began =
      let (active, same, shows, later) =
        begin_txn_with_snapshot-isolates id snapshot e.mvcc entered (take_snapshot snapshot entered)
          r.wf pins in
      record {
        result = refl;
        ready = begun-Ready;
        registered = active;
        pinned = (
          take_snapshot snapshot entered,
          ground (
            arith,
            get-insert id id (take_snapshot snapshot entered) e.txn_snapshots,
            ==_refl id,
          ),
          shows,
        );
        counter = refl;
        uncached = refl;
      }

  -- If the counter is past every id of the manager and is not the last `u64`, a transaction begins at the
  -- first attempt: it gets the counter's value, is registered, and its pinned snapshot shows exactly the
  -- rows of the transactions committed by then. The counter is past every id again, and no snapshot
  -- of before is cached.
  pub begin_txn-Began : Began (begin_txn e)
  unfolding begin_txn
  begin_txn-Began = subst Began (sym (attempt 15)) begun-Began
