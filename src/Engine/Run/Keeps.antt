-- ===== src/Engine/Run/Keeps.antt =====
-- Every operation of an engine keeps its invariant.
use z1kv.Common.{ℕ, ◌≡◌, refl, Option, none, Option-cases, inl, inr}
use z1kv.Common.Map.{get, contains_key}
use z1kv.Common.Bytes.{Bytes}
use z1kv.Errors.{ok}
use z1kv.Mvcc.Types.{TxnSnapshot}
use z1kv.Mvcc.Filter.{is_visible}
use z1kv.Mvcc.Manager.{record_read}
use z1kv.Mvcc.Manager.Below.{record_read-Below}
use z1kv.Store.Types.{put_entry, tombstone}
use z1kv.Store.Flush.{flush_l1_to_l2, try_flush, compact_l2_to_l3}
use z1kv.Engine.{World, Engine, conflict_key}
use z1kv.Engine.Reads.{get_at, get_now, get_for_txn, scan_at, scan_now, snapshot_now}
use z1kv.Engine.Transactions.{put, delete, checkpoint, flush, flush_now, compact}
use z1kv.Engine.Transactions.Untouched.{on_layers-Leaves, checkpoint-Leaves}
use z1kv.Engine.Run.{
  Step, begins, commits, rolls_back, puts, deletes, gets, gets_at, gets_for, scans, scans_at,
  flushes, flushes_now, compacts, checkpoints, Reach, initial, later,
}
use z1kv.Engine.Run.Sound.{
  Sound, Keeps, Leaves-Keeps, >>=-Keeps, moved-Sound, begin_txn-Keeps, current_snapshot-Shown,
}
use z1kv.Engine.Run.Transactions.{
  record_read-history, commit-Keeps, rollback-Keeps, write_entry-Keeps, snapshot_now-Keeps,
}

module _ (w : World) where
  put-Keeps : (cf : ℕ) (key value : Bytes) (id ts : ℕ) → Keeps (put w cf key value id ts)
  unfolding put
  put-Keeps cf key value id ts =
      write_entry-Keeps w (put_entry (record { cf = cf; key = key }) id value ts)

  delete-Keeps : (cf : ℕ) (key : Bytes) (id ts : ℕ) → Keeps (delete w cf key id ts)
  unfolding delete
  delete-Keeps cf key id ts = write_entry-Keeps w (tombstone (record { cf = cf; key = key }) id ts)

  get_at-Keeps : (snap : TxnSnapshot) (cf : ℕ) (key : Bytes) → Keeps (get_at w snap cf key)
  unfolding get_at
  get_at-Keeps snap cf key = Leaves-Keeps (get_at w snap cf key) (λ e. record {
    mvcc_same = refl;
    snapshots_same = refl;
    cache_same = refl;
    counter_same = refl;
  })

  scan_at-Keeps :
      (snap : TxnSnapshot) (cf : ℕ) (start : Bytes) (end_key : Option Bytes)
      → Keeps (scan_at w snap cf start end_key)
  unfolding scan_at
  scan_at-Keeps snap cf start end_key = Leaves-Keeps (scan_at w snap cf start end_key) (λ e.
      record { mvcc_same = refl; snapshots_same = refl; cache_same = refl; counter_same = refl })

  get_now-Keeps : (cf : ℕ) (key : Bytes) → Keeps (get_now w cf key)
  unfolding get_now
  get_now-Keeps cf key =
      >>=-Keeps (snapshot_now w) (λ snap. get_at w snap cf key) (snapshot_now-Keeps w)
        (λ snap. get_at-Keeps snap cf key)

  scan_now-Keeps :
      (cf : ℕ) (start : Bytes) (end_key : Option Bytes) → Keeps (scan_now w cf start end_key)
  unfolding scan_now
  scan_now-Keeps cf start end_key =
      >>=-Keeps (snapshot_now w) (λ snap. scan_at w snap cf start end_key) (snapshot_now-Keeps w)
        (λ snap. scan_at-Keeps snap cf start end_key)

  get_for_txn-Keeps : (cf : ℕ) (key : Bytes) (id : ℕ) → Keeps (get_for_txn w cf key id)
  unfolding get_for_txn
  get_for_txn-Keeps cf key id e s = elim (Option-cases (get id e.txn_snapshots)) [
    | inl gone ↦ rw (gone, get_for_txn) s
    | inr (snap, found) ↦
        rw (found, get_for_txn)
          (get_at-Keeps snap cf key
            (record e { mvcc = record_read id (conflict_key cf key) e.mvcc })
            (moved-Sound e (record_read id (conflict_key cf key) e.mvcc) s
              (record_read-Below e.txn_counter e.mvcc s.below id (conflict_key cf key))
              (record_read-history id (conflict_key cf key) e.mvcc)))
  ]

  pub Step-Sound : {e out : Engine} → Sound e → Step w e out → Sound out
  unfolding flush flush_now compact
  Step-Sound {e} s begins = begin_txn-Keeps e s
  Step-Sound {e} s (commits clock id) = commit-Keeps w clock id e s
  Step-Sound {e} s (rolls_back id) = rollback-Keeps w id e s
  Step-Sound {e} s (puts cf key value id ts) = put-Keeps cf key value id ts e s
  Step-Sound {e} s (deletes cf key id ts) = delete-Keeps cf key id ts e s
  Step-Sound {e} s (gets cf key) = get_now-Keeps cf key e s
  Step-Sound {e} s (gets_at snap cf key) = get_at-Keeps snap cf key e s
  Step-Sound {e} s (gets_for cf key id) = get_for_txn-Keeps cf key id e s
  Step-Sound {e} s (scans cf start end_key) = scan_now-Keeps cf start end_key e s
  Step-Sound {e} s (scans_at snap cf start end_key) = scan_at-Keeps snap cf start end_key e s
  Step-Sound {e} s flushes =
      Leaves-Keeps (flush w) (on_layers-Leaves (try_flush w.disk_format w.patch_write)) e s
  Step-Sound {e} s flushes_now =
      Leaves-Keeps (flush_now w) (on_layers-Leaves (flush_l1_to_l2 w.disk_format w.patch_write)) e s
  Step-Sound {e} s (compacts m) =
      Leaves-Keeps (compact w m)
        (on_layers-Leaves (compact_l2_to_l3 w.disk_format w.patch_write w.l2_broken w.removal m)) e
        s
  Step-Sound {e} s (checkpoints now_ms) =
      Leaves-Keeps (checkpoint w now_ms) (checkpoint-Leaves w now_ms) e s

  -- In an engine that operations in any order have reached from a sound one, a read without a transaction
  -- takes a snapshot, from the cache or a new one, that shows a row exactly when the transaction that created
  -- it is committed; and the engine is sound.
  pub Reach-current :
      {e out : Engine}
      → Sound e
      → Reach w e out
      → Sound out
        × ((snap : TxnSnapshot) × ((snapshot_now w out).1 ≡ ok snap)
            × ((created : ℕ)
                → is_visible snap created none ≡ contains_key created out.mvcc.committed_history))
  unfolding snapshot_now
  Reach-current {e} {out} s initial = (s, (_, refl, (current_snapshot-Shown out s).current))
  Reach-current {e} {out} s (later r step) =
      let t = Step-Sound (Reach-current s r).0 step in
      (t, (_, refl, (current_snapshot-Shown out t).current))
