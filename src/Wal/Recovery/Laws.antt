-- ===== src/Wal/Recovery/Laws.antt =====
-- Which records a replay passes on.
use z1kv.Common.{
  ℕ, ◌≡◌, refl, sym, ap, subst, Bool, true, false, ◌||◌, none, some, List, [], ◌∷◌, ◌++◌, ◌==◌,
  ==_iff, In, In-nil, here, there, In-append_cases, ◌⊎◌, inl, inr, Bool-cases, Option-cases, arith,
}
use z1kv.Common.Map.{Map, get, contains_key, insert, remove, get-insert, contains_key-get}
use z1kv.Mvcc.Types.{contains}
use z1kv.Errors.{Result, ok}
use z1kv.Wal.Record.{WalRecord, WalEntry, put, begin, commit, rollback, checkpoint}
use z1kv.Wal.Recovery.{
  Grouped, no_records, group_record, group_records, insert_id, ordered_ids, is_put, puts_of,
  replayed, RecoveryResult, Outcome, done, aborted, apply_txn, after_txn, start_result, replay_txns,
  replay_committed_ops,
}

-- Does the log hold a `Commit` of the transaction?
unfoldable pub has_commit : ℕ → List WalEntry → Bool
has_commit t [] = false
has_commit t (e ∷ es) =
    let rest = has_commit t es in
    elim e.record_of [ commit commit_ts inserted_at ↦ (e.txn_id == t) || rest | _ ↦ rest ]

contains_key-insert :
    (k j v : ℕ) (m : Map ℕ) → contains_key j (insert k v m) ≡ ((k == j) || contains_key j m)
contains_key-insert k j v m =
    ground (arith, contains_key-get j (insert k v m), contains_key-get j m, get-insert k j v m)

-- The records up to the last one decide what is committed.
group_record-committed :
    (t : ℕ) (e : WalEntry) (g : Grouped) (r : WalRecord)
    → contains_key t (group_record e g r).committed_txns ≡ (elim r [
      | commit commit_ts inserted_at ↦ (e.txn_id == t) || contains_key t g.committed_txns
      | _ ↦ contains_key t g.committed_txns
    ])
unfolding group_record
group_record-committed t e g (put cf key value) = refl
group_record-committed t e g begin = refl
group_record-committed t e g (commit ts ins) = contains_key-insert e.txn_id t ts g.committed_txns
group_record-committed t e g rollback = refl
group_record-committed t e g (checkpoint n) = refl

pub group_records-committed :
    (t : ℕ) (es : List WalEntry) (g : Grouped)
    → contains_key t (group_records es g).committed_txns
      ≡ (has_commit t es || contains_key t g.committed_txns)
unfolding group_records has_commit
group_records-committed t [] g = refl
group_records-committed t (e ∷ es) g =
    step e.record_of (group_record-committed t e g e.record_of)
      (group_records-committed t es (group_record e g e.record_of))
  where
    step :
        {a b : Bool} (r : WalRecord)
        → b ≡ (elim r [
          | commit commit_ts inserted_at ↦ (e.txn_id == t) || contains_key t g.committed_txns
          | _ ↦ contains_key t g.committed_txns
        ])
        → a ≡ (has_commit t es || b)
        → a ≡ (
            (elim r [
              | commit commit_ts inserted_at ↦ (e.txn_id == t) || has_commit t es
              | _ ↦ has_commit t es
            ])
            || contains_key t g.committed_txns)
    step (put cf key value) p q = ground arith
    step begin p q = ground arith
    step (commit ts ins) p q = ground arith
    step rollback p q = ground arith
    step (checkpoint n) p q = ground arith

contains-insert_id :
    (x t : ℕ) (ys : List ℕ) → contains t (insert_id x ys) ≡ ((x == t) || contains t ys)
unfolding insert_id contains
contains-insert_id x t [] = refl
contains-insert_id x t (y ∷ ys) = ground (arith, contains-insert_id x t ys)

pub contains-ordered_ids : (t : ℕ) (m : Map ℕ) → contains t (ordered_ids m) ≡ contains_key t m
unfolding ordered_ids contains contains_key
contains-ordered_ids t [] = refl
contains-ordered_ids t ((id, ts) ∷ m) =
    ground (arith, contains-insert_id id t (ordered_ids m), contains-ordered_ids t m)

In-puts_of : (id : ℕ) (ops : List WalEntry) {x : ℕ × WalRecord} → In x (puts_of id ops) → x.0 ≡ id
unfolding puts_of
In-puts_of id [] m = absurd (In-nil m)
In-puts_of id (op ∷ ops) m = elim (Bool-cases (is_put op.record_of)) [
  | inl yields ↦ head (λ n. In-puts_of id ops n) (rw (yields, puts_of) at m)
  | inr other ↦ In-puts_of id ops (rw (other, puts_of) at m)
]
  where
    head :
        {x : ℕ × WalRecord}
        → (In x (puts_of id ops) → x.0 ≡ id)
        → In x ((id, op.record_of) ∷ puts_of id ops)
        → x.0 ≡ id
    head ih (here e) = ap (λ y. y.0) (sym e)
    head ih (there n) = ih n

contains-head : (t id : ℕ) (ids : List ℕ) → t ≡ id → contains t (id ∷ ids) ≡ true
unfolding contains
contains-head t id ids h = ground (arith, ==_iff id t)

contains-tail : (t id : ℕ) (ids : List ℕ) → contains t ids ≡ true → contains t (id ∷ ids) ≡ true
unfolding contains
contains-tail t id ids h = ground arith

module _ {S : Type 0} (apply : WalEntry → S → S × Result (Unit {0})) (strict_mode : Bool) where
  replay_txns-puts :
      (committed : Map ℕ) (ids : List ℕ) (pending : Map (List WalEntry)) (r r' : RecoveryResult)
      (s s' : S) {x : ℕ × WalRecord}
      → replay_txns apply strict_mode committed ids pending r s ≡ (s', done r')
      → In x r'.committed_puts
      → In x r.committed_puts ⊎ (contains x.0 ids ≡ true)
  unfolding replay_txns after_txn replayed
  replay_txns-puts committed [] pending r r' s s' {x} h m =
      inl (subst (λ (q : RecoveryResult). In x q.committed_puts) (sym same) m)
    where
      same : r ≡ r'
      same = cc
  replay_txns-puts committed (id ∷ ids) pending r r' s s' {x} h m =
      elim (Option-cases (get id pending)) [
        | inl gone ↦
            later (replay_txns-puts committed ids pending r r' s s' (rw (gone, replay_txns) at h) m)
        | inr (ops, found) ↦
            taken (λ p q t k. replay_txns-puts committed ids p q r' t s' k m) ops
              (apply_txn apply strict_mode id ops s) (rw (found, replay_txns) at h)
      ]
    where
      later :
          In x r.committed_puts ⊎ (contains x.0 ids ≡ true)
          → In x r.committed_puts ⊎ (contains x.0 (id ∷ ids) ≡ true)
      later (inl n) = inl n
      later (inr n) = inr (contains-tail x.0 id ids n)

      own :
          (ops : List WalEntry)
          → In x (r.committed_puts ++ puts_of id ops) ⊎ (contains x.0 ids ≡ true)
          → In x r.committed_puts ⊎ (contains x.0 (id ∷ ids) ≡ true)
      own ops (inr n) = inr (contains-tail x.0 id ids n)
      own ops (inl n) = elim (In-append_cases r.committed_puts n) [
        | inl old ↦ inl old
        | inr new ↦ inr (contains-head x.0 id ids (In-puts_of id ops new))
      ]

      taken :
          ((p : Map (List WalEntry)) (q : RecoveryResult) (t : S)
            → replay_txns apply strict_mode committed ids p q t ≡ (s', done r')
            → In x q.committed_puts ⊎ (contains x.0 ids ≡ true))
          → (ops : List WalEntry) (o : S × Outcome Bool)
          → after_txn apply strict_mode
              (replay_txns apply strict_mode committed ids
                (remove id pending)
                (replayed id (elim (get id committed) [ none ↦ 0 | some t ↦ t ]) ops r))
              (replay_txns apply strict_mode committed ids (remove id pending) r)
              o
            ≡ (s', done r')
          → In x r.committed_puts ⊎ (contains x.0 (id ∷ ids) ≡ true)
      taken ih ops (t, done true) k = own ops (ih (remove id pending) _ t k)
      taken ih ops (t, done false) k = later (ih (remove id pending) r t k)
      taken ih ops (t, aborted e) k = absurd (cc)

  -- A replay passes on the writes of committed transactions alone: if it ends, then every put that
  -- it reports belongs to a transaction with a `Commit` record in the log, whatever records of other
  -- transactions stand around it, whichever of the engine's calls fail, and in strict mode or not.
  pub replay_committed_ops-commits :
      (records : List WalEntry) (s s' : S) (r : RecoveryResult) (t : ℕ) (rec : WalRecord)
      → replay_committed_ops apply strict_mode (ok records) s ≡ (s', done r)
      → In (t, rec) r.committed_puts
      → has_commit t records ≡ true
  unfolding replay_committed_ops start_result contains_key
  replay_committed_ops-commits records s s' r t rec h m =
      let g : Grouped = group_records records no_records in
      elim (replay_txns-puts g.committed_txns (ordered_ids g.committed_txns) g.pending
        (start_result g) r s s' h m) [
          | inl early ↦ absurd (In-nil early)
          | inr listed ↦ ground (
            arith,
            contains-ordered_ids t g.committed_txns,
            group_records-committed t records no_records,
          )
        ]
