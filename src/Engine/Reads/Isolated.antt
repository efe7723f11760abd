-- ===== src/Engine/Reads/Isolated.antt =====
-- A write of a transaction that a snapshot does not see changes no read at that snapshot.
use z1kv.Common.{
  ℕ, ◌≡◌, ◌∙◌, refl, sym, ap, Bool, false, Option, [], ◌++◌, retain, Option-cases, inl, inr, arith,
}
use z1kv.Common.Bytes.{Bytes}
use z1kv.Errors.{Result, ok, err}
use z1kv.Effects.{Exec, pure, continue, ◌>>=◌}
use z1kv.Mvcc.Types.{TxnSnapshot}
use z1kv.Mvcc.Manager.{get_begin_ts}
use z1kv.Store.Types.{Z1Key, Z1Entry}
use z1kv.Store.Mem.{MemStore, sources, is_candidate, get_versions}
use z1kv.Store.Mem.Scan.{range_visible, in_scan}
use z1kv.Store.Mem.Hidden.{Hides, put_hidden, is_visible_at_commit_same}
use z1kv.Store.Mem as mem
use z1kv.Store.Disk as disk
use z1kv.Store.Disk.{DiskLayer, keep_bests}
use z1kv.Store.Flush.{FlushEngine, on_l2, on_l3}
use z1kv.Engine.{World, Engine}
use z1kv.Engine.Transactions.{ensure_active_txn, write_entry}
use z1kv.Engine.Reads.{
  sees, memory_versions, memory_scan, candidates, get_at, scan_layers, scan_at, value_of, last_max,
  live,
}

-- The engine and the entry that is written, with a snapshot that does not see it.
module _ (w : World) (snap : TxnSnapshot) (entry : Z1Entry) (unseen : sees snap entry ≡ false) where
  hides_all : (x : Z1Entry) → entry.txn_id ≡ x.txn_id → sees snap x ≡ false
  hides_all x same =
      sym (
        is_visible_at_commit_same entry x snap.snapshot_id snap.commit_ts_map snap.active_txns same)
      ∙ unseen

  candidate-Hides :
      (zk : Z1Key)
      → Hides (is_candidate zk snap.snapshot_id snap.commit_ts_map snap.active_txns) entry
  unfolding is_candidate
  candidate-Hides zk x same = ground (arith, hides_all x same)

  scan-Hides :
      (cf : ℕ) (start : Bytes) (end_key : Option Bytes)
      → Hides (in_scan cf start end_key snap.snapshot_id snap.commit_ts_map snap.active_txns) entry
  unfolding in_scan
  scan-Hides cf start end_key x same = ground (arith, hides_all x same)

  -- Two stores of which such filters show the same.
  abbrev Alike : MemStore → MemStore → Type 0
  Alike m n = (p : Z1Entry → Bool) → Hides p entry → retain p (sources m) ≡ retain p (sources n)

  module _ (s : FlushEngine) (l1 : MemStore) (alike : Alike l1 s.l1) where
    abbrev s' : FlushEngine
    s' = record s { l1 = l1 }

    versions_same :
        (cf : ℕ) (key : Bytes) → memory_versions snap cf key s' ≡ memory_versions snap cf key s
    unfolding memory_versions get_versions
    versions_same cf key =
        rw
          (alike
            (is_candidate (record { cf = cf; key = key }) snap.snapshot_id snap.commit_ts_map
              snap.active_txns)
            (candidate-Hides (record { cf = cf; key = key })))
          refl

    scan_same :
        (cf : ℕ) (start : Bytes) (end_key : Option Bytes)
        → memory_scan snap cf start end_key s' ≡ memory_scan snap cf start end_key s
    unfolding memory_scan range_visible
    scan_same cf start end_key =
        rw
          (alike (in_scan cf start end_key snap.snapshot_id snap.commit_ts_map snap.active_txns)
            (scan-Hides cf start end_key))
          refl

    module _ {A B : Type 0} (m n : Exec DiskLayer A) (g : A → A → B) where
      -- A read of the two disk layers does not look at L1.
      layers_same :
          ((do a ← on_l2 m; b ← on_l3 n; pure (g a b)) s').1
          ≡ ((do a ← on_l2 m; b ← on_l3 n; pure (g a b)) s).1
      layers_same = second (m s.l2)
        where
          third :
              (l : DiskLayer) (a : A) (q : DiskLayer × Result A)
              → (continue {B = B} (λ b. pure (g a b)) (record s' { l2 = l; l3 = q.0 }, q.1)).1
                ≡ (continue {B = B} (λ b. pure (g a b)) (record s { l2 = l; l3 = q.0 }, q.1)).1
          third l a (k, ok b) = refl
          third l a (k, err x) = refl

          second :
              (p : DiskLayer × Result A)
              → (continue {B = B}
                  (λ a. (on_l3 n >>= λ b. pure (g a b)))
                  (record s' { l2 = p.0 }, p.1)).1
                ≡ (continue {B = B}
                    (λ a. (on_l3 n >>= λ b. pure (g a b)))
                    (record s { l2 = p.0 }, p.1)).1
          second (l, ok a) = third l a (n s.l3)
          second (l, err x) = refl

    candidates_same :
        (cf : ℕ) (key : Bytes) → (candidates w snap cf key s').1 ≡ (candidates w snap cf key s).1
    unfolding candidates
    candidates_same cf key = rw (versions_same cf key) (
        layers_same (disk.get_versions w.disk_format w.l2_broken cf key)
          (disk.get_versions w.disk_format w.l3_broken cf key)
          (λ a b. memory_versions snap cf key s ++ (retain (sees snap) a ++ retain (sees snap) b)))

    scan_layers_same :
        (cf : ℕ) (start : Bytes) (end_key : Option Bytes)
        → (scan_layers w snap cf start end_key s').1 ≡ (scan_layers w snap cf start end_key s).1
    unfolding scan_layers
    scan_layers_same cf start end_key = rw (scan_same cf start end_key) (
        layers_same (disk.range_visible w.disk_format w.l2_broken cf start end_key)
          (disk.range_visible w.disk_format w.l3_broken cf start end_key)
          (λ a b.
            keep_bests
              (memory_scan snap cf start end_key s
                ++ (retain (λ x. sees snap x.1) a ++ retain (λ x. sees snap x.1) b))
              []))

  -- What follows a read looks at its result.
  pure_same :
      {A B : Type 0} (h : A → B) (p q : FlushEngine × Result A)
      → p.1 ≡ q.1
      → (continue {B = B} (λ a. pure (h a)) p).1 ≡ (continue {B = B} (λ a. pure (h a)) q).1
  pure_same h (s, ok a) (t, ok b) e = cc
  pure_same h (s, err a) (t, err b) e = cc
  pure_same h (s, ok a) (t, err b) e = absurd (cc)
  pure_same h (s, err a) (t, ok b) e = absurd (cc)

  -- The engine behind the write, as far as reads look at it.
  record Seen (e out : Engine) : Type 0 where
    l1 : MemStore
    alike : Alike l1 e.layers.l1
    layers : out.layers ≡ record e.layers { l1 = l1 }

  write_entry-Seen : (e : Engine) → Seen e (write_entry w entry e).0
  unfolding write_entry ensure_active_txn
  write_entry-Seen e = elim (Option-cases (get_begin_ts entry.txn_id e.mvcc)) [
    | inl gone ↦
        rw (gone, write_entry, ensure_active_txn)
          (record { l1 = e.layers.l1; alike = λ p h. refl; layers = refl })
    | inr (b, found) ↦
        rw (found, write_entry, ensure_active_txn)
          (record {
            l1 = (mem.put w.faults w.torn w.codec w.wal_config w.elapsed entry e.layers.l1).0;
            alike = λ p h.
                put_hidden p w.faults w.torn w.codec w.wal_config w.elapsed entry e.layers.l1 h;
            layers = refl;
          })
  ]

  -- A put or a delete whose transaction the snapshot does not see changes neither what `get_at` returns for
  -- any key at that snapshot nor what `scan_at` returns for any range, whether the write succeeds or
  -- fails.
  pub write_entry-isolated :
      (e : Engine) (cf : ℕ) (key start : Bytes) (end_key : Option Bytes)
      → ((get_at w snap cf key (write_entry w entry e).0).1 ≡ (get_at w snap cf key e).1)
        × ((scan_at w snap cf start end_key (write_entry w entry e).0).1
            ≡ (scan_at w snap cf start end_key e).1)
  unfolding get_at scan_at
  write_entry-isolated e cf key start end_key =
      let m = write_entry-Seen e in
      (
        ap
              (λ (s : FlushEngine).
                (continue (λ found. pure (value_of (last_max found)))
                  (candidates w snap cf key s)).1)
              m.layers
            ∙ pure_same (λ found. value_of (last_max found))
                (candidates w snap cf key (record e.layers { l1 = m.l1 }))
                (candidates w snap cf key e.layers) (candidates_same e.layers m.l1 m.alike cf key),
        ap
              (λ (s : FlushEngine).
                (continue (λ best. pure (live best)) (scan_layers w snap cf start end_key s)).1)
              m.layers
            ∙ pure_same live (scan_layers w snap cf start end_key (record e.layers { l1 = m.l1 }))
                (scan_layers w snap cf start end_key e.layers)
                (scan_layers_same e.layers m.l1 m.alike cf start end_key),
      )
