-- ===== src/Wal/Recovery.antt =====
-- wal/recovery.rs: which transactions of a replayed log are committed, and their replay through the
-- engine's `apply`, a parameter. The texts of errors and the `replay_failure` file are left out.
pub mod Laws
pub mod Ends
pub mod Reading
pub mod Exact
use z1kv.Common.{
  ℕ, max, Bool, true, false, not, ◌&&◌, Option, none, some, List, [], ◌∷◌, ◌++◌, map, length, leb,
  retain, ◌+◌, if◌then◌else◌,
}
use z1kv.Common.Map.{Map, get, contains_key, insert, remove}
use z1kv.Errors.{
  Result, ok, err, Z1Error, io, deserialize, degraded, IoKind, already_exists, permission_denied,
  handle_degrade,
}
use z1kv.Wal.Record.{WalRecord, WalEntry, put, begin, commit, rollback, checkpoint}
use z1kv.Mvcc.Types.{contains}

pub data RecoverableReason : Type 0 where
  exists_already denied : RecoverableReason

pub data ReplayErrorKind : Type 0 where
  recoverable : RecoverableReason → ReplayErrorKind
  ambiguous corruption : ReplayErrorKind
  fatal_error : ReplayErrorKind

unfoldable pub classify_apply_error : Z1Error → ReplayErrorKind
classify_apply_error (deserialize fault) = corruption
classify_apply_error (io kind) = elim kind [
  | already_exists ↦ recoverable exists_already
  | permission_denied ↦ recoverable denied
  | _ ↦ fatal_error
]
classify_apply_error _ = ambiguous

-- What Phase 1 collects.
pub record Grouped : Type 0 where
  pub pending : Map (List WalEntry)
  pub committed_txns : Map ℕ
  pub rolled_back : List ℕ
  pub max_seen_committed : ℕ
  pub inserted_at_map : Map ℕ
  pub max_inserted_at : ℕ

abbrev pub no_records : Grouped
no_records = record {
  pending = [];
  committed_txns = [];
  rolled_back = [];
  max_seen_committed = 0;
  inserted_at_map = [];
  max_inserted_at = 0;
}

-- `pending.entry(txn_id).or_default()`
unfoldable pub pending_ops : ℕ → Map (List WalEntry) → List WalEntry
unfolding get
pending_ops txn_id pending = elim (get txn_id pending) [ none ↦ [] | some ops ↦ ops ]

unfoldable pub group_record : WalEntry → Grouped → WalRecord → Grouped
unfolding insert remove pending_ops
group_record entry g (put cf key value) = record g {
  pending = insert entry.txn_id (pending_ops entry.txn_id g.pending ++ entry ∷ []) g.pending;
}
group_record entry g begin = record g {
  pending = insert entry.txn_id (pending_ops entry.txn_id g.pending) g.pending;
}
group_record entry g (commit commit_ts inserted_at) = record g {
  committed_txns = insert entry.txn_id commit_ts g.committed_txns;
  inserted_at_map = insert entry.txn_id inserted_at g.inserted_at_map;
  max_inserted_at = max g.max_inserted_at inserted_at;
  max_seen_committed = max g.max_seen_committed entry.txn_id;
}
group_record entry g rollback = record g {
  rolled_back = entry.txn_id ∷ g.rolled_back;
  pending = remove entry.txn_id g.pending;
}
group_record entry g (checkpoint id) = g

unfoldable pub group_records : List WalEntry → Grouped → Grouped
unfolding group_record
group_records [] g = g
group_records (entry ∷ records) g = group_records records (group_record entry g entry.record_of)

pub record RecoveryResult : Type 0 where
  pub last_committed_txn : ℕ
  pub max_seen_committed_txn : ℕ
  pub committed_count : ℕ
  pub discarded_count : ℕ
  pub commit_ts_map : Map ℕ
  pub inserted_at_map : Map ℕ
  pub replay_watermark : ℕ
  pub committed_puts : List (ℕ × WalRecord)

pub record ReplayError : Type 0 where
  pub kind : ReplayErrorKind
  pub txn_id : ℕ

pub data Outcome {ℓ} (A : Type ℓ) : Type ℓ where
  done : A → Outcome A
  aborted : ReplayError → Outcome A

unfoldable pub count_discarded : Grouped → Map (List WalEntry) → ℕ
unfolding contains_key contains
count_discarded g [] = 0
count_discarded g ((id, ops) ∷ pending) =
    let rest = count_discarded g pending in
    if not (contains_key id g.committed_txns) && not (contains id g.rolled_back)
    then rest + 1
    else rest

-- The keys of the committed transactions, sorted.
unfoldable pub insert_id : ℕ → List ℕ → List ℕ
insert_id x [] = x ∷ []
insert_id x (y ∷ ys) = let rest = insert_id x ys in if leb x y then x ∷ y ∷ ys else y ∷ rest

unfoldable pub ordered_ids : Map ℕ → List ℕ
unfolding insert_id
ordered_ids [] = []
ordered_ids ((id, ts) ∷ m) = insert_id id (ordered_ids m)

unfoldable pub is_put : WalRecord → Bool
is_put (put cf key value) = true
is_put _ = false

unfoldable pub puts_of : ℕ → List WalEntry → List (ℕ × WalRecord)
unfolding is_put
puts_of txn_id [] = []
puts_of txn_id (op ∷ ops) =
    let rest = puts_of txn_id ops in
    if is_put op.record_of then (txn_id, op.record_of) ∷ rest else rest

unfoldable pub replayed : ℕ → ℕ → List WalEntry → RecoveryResult → RecoveryResult
unfolding puts_of insert
replayed txn_id commit_ts ops r = record r {
  last_committed_txn = max r.last_committed_txn txn_id;
  committed_count = r.committed_count + 1;
  commit_ts_map = insert txn_id commit_ts r.commit_ts_map;
  committed_puts = r.committed_puts ++ puts_of txn_id ops;
}

unfoldable pub start_result : Grouped → RecoveryResult
unfolding count_discarded
start_result g = record {
  last_committed_txn = 0;
  max_seen_committed_txn = g.max_seen_committed;
  committed_count = 0;
  discarded_count = count_discarded g g.pending;
  commit_ts_map = [];
  inserted_at_map = g.inserted_at_map;
  replay_watermark = g.max_inserted_at;
  committed_puts = [];
}

-- What a failing `apply` makes of its transaction: it is skipped, or the replay aborts.
unfoldable pub failed : Bool → ℕ → ReplayErrorKind → Outcome Bool
failed strict_mode txn_id fatal_error = aborted (record { kind = fatal_error; txn_id = txn_id })
failed strict_mode txn_id corruption =
    if handle_degrade (degraded "wal_record_corrupt") strict_mode
    then aborted (record { kind = corruption; txn_id = txn_id })
    else done false
failed strict_mode txn_id (recoverable reason) = done false
failed strict_mode txn_id ambiguous = done false

module _ {S : Type 0} (apply : WalEntry → S → S × Result (Unit {0})) (strict_mode : Bool) where
  unfoldable pub after_op : ℕ → (S → S × Outcome Bool) → S × Result (Unit {0}) → S × Outcome Bool
  unfolding classify_apply_error failed
  after_op txn_id next (s, ok _) = next s
  after_op txn_id next (s, err e) = (s, failed strict_mode txn_id (classify_apply_error e))

  -- The operations of one transaction: all applied, or skipped at a failure, or the replay aborts.
  unfoldable pub apply_txn : ℕ → List WalEntry → S → S × Outcome Bool
  unfolding after_op
  apply_txn txn_id [] s = (s, done true)
  apply_txn txn_id (op ∷ ops) s = after_op txn_id (apply_txn txn_id ops) (apply op s)

  unfoldable pub after_txn :
      (kept skipped : S → S × Outcome RecoveryResult)
      → S × Outcome Bool
      → S × Outcome RecoveryResult
  after_txn kept skipped (s, done true) = kept s
  after_txn kept skipped (s, done false) = skipped s
  after_txn kept skipped (s, aborted e) = (s, aborted e)

  -- Phase 2. `pending` loses the operations of a transaction when it is taken up.
  unfoldable pub replay_txns :
      Map ℕ → List ℕ → Map (List WalEntry) → RecoveryResult → S → S × Outcome RecoveryResult
  unfolding apply_txn after_txn replayed get remove
  replay_txns committed [] pending r s = (s, done r)
  replay_txns committed (txn_id ∷ ids) pending r s = elim (get txn_id pending) [
    | none ↦ replay_txns committed ids pending r s
    | some ops ↦
        let ts : ℕ = elim (get txn_id committed) [ none ↦ 0 | some t ↦ t ] in
        after_txn (replay_txns committed ids (remove txn_id pending) (replayed txn_id ts ops r))
          (replay_txns committed ids (remove txn_id pending) r) (apply_txn txn_id ops s)
  ]

  -- `replay_committed_ops`, given what `replay_all` has read.
  unfoldable pub replay_committed_ops : Result (List WalEntry) → S → S × Outcome RecoveryResult
  unfolding group_records start_result ordered_ids replay_txns
  replay_committed_ops (err e) s = (s, aborted (record { kind = fatal_error; txn_id = 0 }))
  replay_committed_ops (ok records) s =
      let g = group_records records no_records in
      replay_txns g.committed_txns (ordered_ids g.committed_txns) g.pending (start_result g) s
