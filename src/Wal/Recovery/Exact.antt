-- ===== src/Wal/Recovery/Exact.antt =====
-- What a replay rebuilds, against a reading of the log by itself.
use z1kv.Common.{
  ℕ, ◌≡◌, ◌∙◌, refl, Bool, true, Option, none, some, List, [], ◌∷◌, ◌==◌, ==_iff, In,
  In-append_left, In-append_right, inl, inr, Bool-cases, Option-cases, if◌then◌else◌, arith,
}
use z1kv.Common.Map.{
  Map, get, remove, get-insert, get-remove, contains_key-get, Distinct, Distinct-insert,
}
use z1kv.Mvcc.Types.{contains}
use z1kv.Errors.{Result, ok}
use z1kv.Wal.Record.{WalRecord, WalEntry}
use z1kv.Wal.Recovery.{
  Grouped, no_records, group_records, ordered_ids, puts_of, replayed, RecoveryResult, done,
  after_txn, start_result, replay_txns, replay_committed_ops,
}
use z1kv.Wal.Recovery.Laws.{has_commit, contains-ordered_ids, group_records-committed}
use z1kv.Wal.Recovery.Ends.{apply_txn-done}
use z1kv.Wal.Recovery.Reading.{
  live_ops, last_commit, largest_commit, logged_ts, group_records-live, group_records-last,
  group_records-largest,
}

abbrev or_zero : Option ℕ → ℕ
or_zero none = 0
or_zero (some n) = n

module _ {S : Type 0} (apply : WalEntry → S → S × Result (Unit {0})) (strict_mode : Bool)
    (works : (op : WalEntry) (s : S) → (u : S) × (apply op s ≡ (u, ok tt))) where
  -- How the second phase goes on from a result.
  record Replays (committed : Map ℕ) (ids : List ℕ) (pending : Map (List WalEntry))
      (r q : RecoveryResult) : Type 0 where
    commit_ts :
        (t : ℕ)
        → get t q.commit_ts_map ≡ (
            if contains t ids
            then (elim (get t pending) [
              | none ↦ get t r.commit_ts_map
              | some ops ↦ some (or_zero (get t committed))
            ])
            else get t r.commit_ts_map)
    keeps : (x : ℕ × WalRecord) → In x r.committed_puts → In x q.committed_puts
    adds :
        (t : ℕ) (ops : List WalEntry) (x : ℕ × WalRecord)
        → contains t ids ≡ true
        → get t pending ≡ some ops
        → In x (puts_of t ops)
        → In x q.committed_puts
    distinct : Distinct r.commit_ts_map → Distinct q.commit_ts_map
    seen : q.max_seen_committed_txn ≡ r.max_seen_committed_txn

  module _ (committed : Map ℕ) (id : ℕ) (ids : List ℕ) (pending : Map (List WalEntry))
      (r q : RecoveryResult) where
    skips :
        get id pending ≡ none
        → Replays committed ids pending r q
        → Replays committed (id ∷ ids) pending r q
    unfolding contains
    skips gone p = record {
      commit_ts = λ t. ground (arith, p.commit_ts t, ==_iff id t);
      keeps = p.keeps;
      adds = λ t ops x c found m. p.adds t ops x (ground (arith, ==_iff id t)) found m;
      distinct = p.distinct;
      seen = p.seen;
    }

    takes :
        (ops : List WalEntry)
        → get id pending ≡ some ops
        → Replays committed ids
            (remove id pending)
            (replayed id (or_zero (get id committed)) ops r)
            q
        → Replays committed (id ∷ ids) pending r q
    unfolding contains replayed
    takes ops found p = record {
      commit_ts = λ t. ground (
        arith,
        p.commit_ts t,
        get-insert id t (or_zero (get id committed)) r.commit_ts_map,
        get-remove id t pending,
        ==_iff id t,
      );
      keeps = λ x m. p.keeps x (In-append_left (puts_of id ops) m);
      adds = λ t os x c at m. elim (Bool-cases (id == t)) [
        | inl same ↦
            let e : id ≡ t = (==_iff id t).0 same in
            let here_ops : ops ≡ os = cc (found, at, e) in
            p.keeps x (In-append_right r.committed_puts (rw (e, here_ops) m))
        | inr other ↦ p.adds t os x (ground (arith, c)) (ground (arith, get-remove id t pending)) m
      ];
      distinct =
          λ d. p.distinct (Distinct-insert id (or_zero (get id committed)) r.commit_ts_map d);
      seen = p.seen;
    }

  replay_txns-Replays :
      (committed : Map ℕ) (ids : List ℕ) (pending : Map (List WalEntry)) (r : RecoveryResult)
      (s : S)
      → (u : S) × (q : RecoveryResult) × (replay_txns apply strict_mode committed ids pending r s
          ≡ (u, done q))
        × Replays committed ids pending r q
  unfolding replay_txns after_txn contains
  replay_txns-Replays committed [] pending r s = (
    s,
    r,
    refl,
    record {
      commit_ts = λ t. refl;
      keeps = λ x m. m;
      adds = λ t ops x c found m. absurd (cc);
      distinct = λ d. d;
      seen = refl;
    },
  )
  replay_txns-Replays committed (id ∷ ids) pending r s = elim (Option-cases (get id pending)) [
    | inl gone ↦
        let (u, q, ends, p) = replay_txns-Replays committed ids pending r s in
        (u, q, rw (gone, replay_txns) ends, skips committed id ids pending r q gone p)
    | inr (ops, found) ↦
        let (t, all) = apply_txn-done apply strict_mode works id ops s in
        let (u, q, ends, p) =
          replay_txns-Replays committed ids (remove id pending)
            (replayed id (or_zero (get id committed)) ops r) t in
        (
          u,
          q,
          rw (found, replay_txns) (rw all ends),
          takes committed id ids pending r q ops found p,
        )
  ]

  -- What a result says of a log.
  pub record Rebuilt (records : List WalEntry) (q : RecoveryResult) : Type 0 where
    pub history : (t : ℕ) → get t q.commit_ts_map ≡ logged_ts t records
    pub puts :
        (t : ℕ) (ops : List WalEntry) (x : ℕ × WalRecord)
        → has_commit t records ≡ true
        → live_ops t records none ≡ some ops
        → In x (puts_of t ops)
        → In x q.committed_puts
    pub distinct : Distinct q.commit_ts_map
    pub seen : q.max_seen_committed_txn ≡ largest_commit records 0

  -- When the engine accepts every write, a replay ends, and its result is what the log says: a transaction is
  -- in the rebuilt history exactly when it has a `Commit` record and a record behind its last
  -- `Rollback`, with the timestamp of its last `Commit`, and the puts of each such transaction are
  -- all reported.
  pub replay_committed_ops-Rebuilt :
      (records : List WalEntry) (s : S)
      → (u : S) × (q : RecoveryResult) × (replay_committed_ops apply strict_mode (ok records) s
          ≡ (u, done q))
        × Rebuilt records q
  unfolding replay_committed_ops start_result logged_ts
  replay_committed_ops-Rebuilt records s =
      let g : Grouped = group_records records no_records in
      let (u, q, ends, p) =
        replay_txns-Replays g.committed_txns (ordered_ids g.committed_txns) g.pending
          (start_result g) s in
      (
        u,
        q,
        ends,
        record {
          history = λ t.
              p.commit_ts t
              ∙ read t g (group_records-live t records no_records)
                  (group_records-last t records no_records);
          puts = λ t ops x c live m.
              p.adds t ops x (listed t c) (group_records-live t records no_records ∙ live) m;
          distinct = p.distinct tt;
          seen = p.seen ∙ group_records-largest records no_records;
        },
      )
    where
      listed :
          (t : ℕ)
          → has_commit t records ≡ true
          → contains t (ordered_ids (group_records records no_records).committed_txns) ≡ true
      listed t c = ground (
        arith,
        contains-ordered_ids t (group_records records no_records).committed_txns,
        group_records-committed t records no_records,
      )

      read :
          (t : ℕ) (g : Grouped)
          → get t g.pending ≡ live_ops t records none
          → get t g.committed_txns ≡ last_commit t records none
          → (if contains t (ordered_ids g.committed_txns)
              then (elim (get t g.pending) [
                | none ↦ none
                | some ops ↦ some (or_zero (get t g.committed_txns))
              ])
              else none)
            ≡ (elim (live_ops t records none) [
              | none ↦ none
              | some ops ↦ last_commit t records none
            ])
      read t g a b = ground (
        arith,
        a,
        b,
        contains-ordered_ids t g.committed_txns,
        contains_key-get t g.committed_txns,
      )
