-- ===== src/Store/Mem/Hidden.antt =====
-- A write that a filter does not show leaves what it shows of the store as it was.
use Prim.Native.Nat.{Ordering}
use z1kv.Common.{
  ℕ, ◌≡◌, refl, ap, Bool, false, Option, some, List, [], ◌∷◌, ◌++◌, retain, retain-append,
  Option-cases, inl, inr, arith,
}
use z1kv.Common.Map.{Map}
use z1kv.Errors.{ok, err, IoKind}
use z1kv.Store.Types.{Z1Entry, is_visible_at_commit}
use z1kv.Store.Mem.{
  MemStore, version_cmp, insert_version, replay_put, sources, Logged, log_put, put_logged, put,
}
use z1kv.Wal.Record.{Codec}
use z1kv.Wal.Writer.{WalConfig}

version_cmp-txn_id : (e x : Z1Entry) → version_cmp e x ≡ Ordering.eq → e.txn_id ≡ x.txn_id
unfolding version_cmp
version_cmp-txn_id e x h = ground arith

-- Visibility looks at the transaction alone.
pub is_visible_at_commit_same :
    (e x : Z1Entry) (snapshot_txn : ℕ) (commits : Map ℕ) (active : List ℕ)
    → e.txn_id ≡ x.txn_id
    → is_visible_at_commit e snapshot_txn commits active
      ≡ is_visible_at_commit x snapshot_txn commits active
unfolding is_visible_at_commit
is_visible_at_commit_same e x snapshot_txn commits active same =
    ap (λ (t : ℕ). is_visible_at_commit (record e { txn_id = t }) snapshot_txn commits active) same

module _ (p : Z1Entry → Bool) where
  -- The filter does not show a version with the id of the entry's transaction.
  abbrev pub Hides : Z1Entry → Type 0
  Hides e = (x : Z1Entry) → e.txn_id ≡ x.txn_id → p x ≡ false

  retain-insert_version :
      (e : Z1Entry) (xs : List Z1Entry) → Hides e → retain p (insert_version e xs) ≡ retain p xs
  unfolding insert_version retain
  retain-insert_version e [] hides = ground (arith, hides e refl)
  retain-insert_version e (x ∷ xs) hides =
      ground
        (arith, hides e refl, hides x, version_cmp-txn_id e x, retain-insert_version e xs hides)

  retain-append_same :
      (xs ys zs : List Z1Entry)
      → retain p xs ≡ retain p ys
      → retain p (xs ++ zs) ≡ retain p (ys ++ zs)
  retain-append_same xs ys zs same = rw (retain-append p xs zs, retain-append p ys zs, same) refl

  module _ (faults : ℕ → Option IoKind) (torn : ℕ → ℕ) (c : Codec) (config : WalConfig) where
    replay_put_hidden :
        (e : Z1Entry) (m : MemStore)
        → Hides e
        → retain p (sources (replay_put e m)) ≡ retain p (sources m)
    unfolding replay_put
    replay_put_hidden e m hides =
        retain-append_same (insert_version e m.hot) m.hot (m.cold ++ m.snapshot)
          (retain-insert_version e m.hot hides)

    pub put_hidden :
        (elapsed : Bool) (e : Z1Entry) (m : MemStore)
        → Hides e
        → retain p (sources (put faults torn c config elapsed e m).0) ≡ retain p (sources m)
    unfolding put put_logged
    put_hidden elapsed e m hides = elim (Option-cases m.wal) [
      | inl gone ↦ rw (gone, put) (replay_put_hidden e m hides)
      | inr (log, found) ↦
          rw (found, put)
            (logged (log_put faults torn c config m.sync_level elapsed m.batch_pending e log))
    ]
      where
        logged :
            (out : Logged)
            → retain p (sources (put_logged faults torn c config e m out).0) ≡ retain p (sources m)
        logged ((log, pending), err x) = refl
        logged ((log, pending), ok t) =
            replay_put_hidden e (record m { wal = some log; batch_pending = pending }) hides
