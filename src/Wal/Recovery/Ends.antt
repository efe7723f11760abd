-- ===== src/Wal/Recovery/Ends.antt =====
-- When a replay ends, and the watermark of its result.
use z1kv.Common.{
  ℕ, max, ◌≡◌, ◌∙◌, refl, Bool, true, none, some, List, [], ◌∷◌, inl, inr, Option-cases, arith,
}
use z1kv.Common.Map.{Map, get, remove}
use z1kv.Errors.{Result, ok}
use z1kv.Wal.Record.{WalRecord, WalEntry, put, begin, commit, rollback, checkpoint}
use z1kv.Wal.Recovery.{
  Grouped, no_records, group_record, group_records, ordered_ids, replayed, RecoveryResult, done,
  after_op, apply_txn, after_txn, start_result, replay_txns, replay_committed_ops,
}

-- The largest `inserted_at` of the `Commit` records, 0 for none.
unfoldable pub largest_inserted_at : List WalEntry → ℕ
largest_inserted_at [] = 0
largest_inserted_at (e ∷ es) =
    let rest = largest_inserted_at es in
    elim e.record_of [ commit commit_ts inserted_at ↦ max inserted_at rest | _ ↦ rest ]

group_record-watermark :
    (e : WalEntry) (g : Grouped) (r : WalRecord) (rest : ℕ)
    → max (group_record e g r).max_inserted_at rest
      ≡ max g.max_inserted_at
          (elim r [ commit commit_ts inserted_at ↦ max inserted_at rest | _ ↦ rest ])
unfolding group_record
group_record-watermark e g (put cf key value) rest = refl
group_record-watermark e g begin rest = refl
group_record-watermark e g (commit ts ins) rest = omega arith
group_record-watermark e g rollback rest = refl
group_record-watermark e g (checkpoint n) rest = refl

group_records-watermark :
    (es : List WalEntry) (g : Grouped)
    → (group_records es g).max_inserted_at ≡ max g.max_inserted_at (largest_inserted_at es)
unfolding group_records largest_inserted_at
group_records-watermark [] g = omega arith
group_records-watermark (e ∷ es) g =
    group_records-watermark es (group_record e g e.record_of)
    ∙ group_record-watermark e g e.record_of (largest_inserted_at es)

module _ {S : Type 0} (apply : WalEntry → S → S × Result (Unit {0})) (strict_mode : Bool)
    (works : (op : WalEntry) (s : S) → (u : S) × (apply op s ≡ (u, ok tt))) where
  pub apply_txn-done :
      (id : ℕ) (ops : List WalEntry) (s : S)
      → (u : S) × (apply_txn apply strict_mode id ops s ≡ (u, done true))
  unfolding apply_txn after_op
  apply_txn-done id [] s = (s, refl)
  apply_txn-done id (op ∷ ops) s =
      let (t, called) = works op s in let (u, rest) = apply_txn-done id ops t in (u, rw called rest)

  replay_txns-done :
      (committed : Map ℕ) (ids : List ℕ) (pending : Map (List WalEntry)) (r : RecoveryResult)
      (s : S)
      → (u : S) × (q : RecoveryResult) × (replay_txns apply strict_mode committed ids pending r s
          ≡ (u, done q))
        × (q.replay_watermark ≡ r.replay_watermark)
  unfolding replay_txns after_txn replayed
  replay_txns-done committed [] pending r s = (s, r, refl, refl)
  replay_txns-done committed (id ∷ ids) pending r s = elim (Option-cases (get id pending)) [
    | inl gone ↦
        let (u, q, ends, same) = replay_txns-done committed ids pending r s in
        (u, q, rw (gone, replay_txns) ends, same)
    | inr (ops, found) ↦
        let (t, all) = apply_txn-done id ops s in
        let (u, q, ends, same) =
          replay_txns-done committed ids (remove id pending)
            (replayed id (elim (get id committed) [ none ↦ 0 | some ts ↦ ts ]) ops r) t in
        (u, q, rw (found, replay_txns) (rw all ends), same)
  ]

  -- When the engine accepts every write, the replay of any readable log ends with a result, in strict
  -- mode or not, and the watermark of the result is the largest `inserted_at` of its `Commit` records.
  pub replay_committed_ops-done :
      (records : List WalEntry) (s : S)
      → (u : S) × (r : RecoveryResult) × (replay_committed_ops apply strict_mode (ok records) s
          ≡ (u, done r))
        × (r.replay_watermark ≡ largest_inserted_at records)
  unfolding replay_committed_ops start_result
  replay_committed_ops-done records s =
      let g : Grouped = group_records records no_records in
      let (u, r, ends, mark) =
        replay_txns-done g.committed_txns (ordered_ids g.committed_txns) g.pending (start_result g)
          s in
      (u, r, ends, omega (arith, mark, group_records-watermark records no_records))
