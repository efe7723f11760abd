-- ===== src/Wal/Recovery/Reading.antt =====
-- A reading of the log by itself, one transaction at a time, and the first phase of a replay.
use z1kv.Common.{
  ℕ, max, ◌≡◌, ◌≤◌, ◌∙◌, refl, ap, Option, none, some, List, [], ◌∷◌, ◌++◌, ◌==◌, ==_iff, ==_refl,
  if◌then◌else◌, arith,
}
use z1kv.Common.Map.{get, get-insert, get-remove}
use z1kv.Wal.Record.{WalRecord, WalEntry, put, begin, commit, rollback, checkpoint}
use z1kv.Wal.Recovery.{Grouped, pending_ops, group_record, group_records}

abbrev or_none : Option (List WalEntry) → List WalEntry
or_none none = []
or_none (some ops) = ops

-- The operations of a transaction that a record adds to or drops.
unfoldable pub live_step : WalEntry → WalRecord → Option (List WalEntry) → Option (List WalEntry)
live_step e (put cf key value) ops = some (or_none ops ++ e ∷ [])
live_step e begin ops = some (or_none ops)
live_step e rollback ops = none
live_step e _ ops = ops

-- The operations of a transaction that a log holds: those behind its last `Rollback`, `none` without any
-- record behind it.
unfoldable pub live_ops : ℕ → List WalEntry → Option (List WalEntry) → Option (List WalEntry)
unfolding live_step
live_ops t [] ops = ops
live_ops t (e ∷ es) ops = live_ops t es (if e.txn_id == t then live_step e e.record_of ops else ops)

-- The timestamp of the last `Commit` of a transaction.
unfoldable pub last_commit : ℕ → List WalEntry → Option ℕ → Option ℕ
last_commit t [] ts = ts
last_commit t (e ∷ es) ts = last_commit t es (elim e.record_of [
  | commit commit_ts inserted_at ↦ if e.txn_id == t then some commit_ts else ts
  | _ ↦ ts
])

group_record-live :
    (t : ℕ) (e : WalEntry) (g : Grouped) (r : WalRecord)
    → get t (group_record e g r).pending
      ≡ (if e.txn_id == t then live_step e r (get t g.pending) else get t g.pending)
unfolding group_record pending_ops live_step get
group_record-live t e g (put cf key value) = ground (
  arith,
  get-insert e.txn_id t (pending_ops e.txn_id g.pending ++ e ∷ []) g.pending,
  ==_iff e.txn_id t,
)
group_record-live t e g begin =
    ground
      (arith, get-insert e.txn_id t (pending_ops e.txn_id g.pending) g.pending, ==_iff e.txn_id t)
group_record-live t e g (commit ts ins) = ground arith
group_record-live t e g rollback = ground (arith, get-remove e.txn_id t g.pending)
group_record-live t e g (checkpoint n) = ground arith

pub group_records-live :
    (t : ℕ) (es : List WalEntry) (g : Grouped)
    → get t (group_records es g).pending ≡ live_ops t es (get t g.pending)
unfolding group_records live_ops
group_records-live t [] g = refl
group_records-live t (e ∷ es) g =
    group_records-live t es (group_record e g e.record_of)
    ∙ ap (live_ops t es) (group_record-live t e g e.record_of)

group_record-last :
    (t : ℕ) (e : WalEntry) (g : Grouped) (r : WalRecord)
    → get t (group_record e g r).committed_txns ≡ (elim r [
      | commit commit_ts inserted_at ↦
          if e.txn_id == t then some commit_ts else get t g.committed_txns
      | _ ↦ get t g.committed_txns
    ])
unfolding group_record
group_record-last t e g (put cf key value) = refl
group_record-last t e g begin = refl
group_record-last t e g (commit ts ins) = get-insert e.txn_id t ts g.committed_txns
group_record-last t e g rollback = refl
group_record-last t e g (checkpoint n) = refl

pub group_records-last :
    (t : ℕ) (es : List WalEntry) (g : Grouped)
    → get t (group_records es g).committed_txns ≡ last_commit t es (get t g.committed_txns)
unfolding group_records last_commit
group_records-last t [] g = refl
group_records-last t (e ∷ es) g =
    group_records-last t es (group_record e g e.record_of)
    ∙ ap (last_commit t es) (group_record-last t e g e.record_of)

-- The largest id with a `Commit`.
unfoldable pub largest_commit : List WalEntry → ℕ → ℕ
largest_commit [] n = n
largest_commit (e ∷ es) n =
    largest_commit es (elim e.record_of [ commit commit_ts inserted_at ↦ max n e.txn_id | _ ↦ n ])

group_record-largest :
    (e : WalEntry) (g : Grouped) (r : WalRecord)
    → (group_record e g r).max_seen_committed ≡ (elim r [
      | commit commit_ts inserted_at ↦ max g.max_seen_committed e.txn_id
      | _ ↦ g.max_seen_committed
    ])
unfolding group_record
group_record-largest e g (put cf key value) = refl
group_record-largest e g begin = refl
group_record-largest e g (commit ts ins) = refl
group_record-largest e g rollback = refl
group_record-largest e g (checkpoint n) = refl

pub group_records-largest :
    (es : List WalEntry) (g : Grouped)
    → (group_records es g).max_seen_committed ≡ largest_commit es g.max_seen_committed
unfolding group_records largest_commit
group_records-largest [] g = refl
group_records-largest (e ∷ es) g =
    group_records-largest es (group_record e g e.record_of)
    ∙ ap (largest_commit es) (group_record-largest e g e.record_of)

-- A transaction with a `Commit` is not past the largest.
last_commit-le :
    (t : ℕ) (es : List WalEntry) (ts : Option ℕ) (n v : ℕ)
    → ((u : ℕ) → ts ≡ some u → t ≤ n)
    → last_commit t es ts ≡ some v
    → t ≤ largest_commit es n
unfolding last_commit largest_commit
last_commit-le t [] ts n v b h = b v h
last_commit-le t (e ∷ es) ts n v b h = go (λ us m. last_commit-le t es us m v) e.record_of b h
  where
    go :
        ((us : Option ℕ) (m : ℕ)
          → ((u : ℕ) → us ≡ some u → t ≤ m)
          → last_commit t es us ≡ some v
          → t ≤ largest_commit es m)
        → (r : WalRecord) → ((u : ℕ) → ts ≡ some u → t ≤ n)
        → last_commit t es
            (elim r [ commit ct ins ↦ if e.txn_id == t then some ct else ts | _ ↦ ts ])
          ≡ some v
        → t ≤ largest_commit es (elim r [ commit ct ins ↦ max n e.txn_id | _ ↦ n ])
    go ih (commit ct ins) b h = ih _ _ (λ u k. ground (arith, b u, ==_iff e.txn_id t)) h
    go ih (put cf key value) b h = ih _ _ b h
    go ih begin b h = ih _ _ b h
    go ih rollback b h = ih _ _ b h
    go ih (checkpoint k) b h = ih _ _ b h

-- The timestamp that a log gives a transaction: the last one, when there is something to replay.
unfoldable pub logged_ts : ℕ → List WalEntry → Option ℕ
unfolding live_ops last_commit
logged_ts t records = elim (live_ops t records none) [
  | none ↦ none
  | some ops ↦ last_commit t records none
]

pub logged_ts-le :
    (t v : ℕ) (records : List WalEntry)
    → logged_ts t records ≡ some v
    → t ≤ largest_commit records 0
unfolding logged_ts
logged_ts-le t v records h =
    last_commit-le t records none 0 v (λ u e. absurd (cc)) (ground (arith, h))

live_ops-append :
    (t : ℕ) (es : List WalEntry) (e : WalEntry) (ops : Option (List WalEntry))
    → live_ops t (es ++ e ∷ []) ops ≡ live_ops t (e ∷ []) (live_ops t es ops)
unfolding live_ops
live_ops-append t [] e ops = refl
live_ops-append t (x ∷ es) e ops =
    live_ops-append t es e (if x.txn_id == t then live_step x x.record_of ops else ops)

last_commit-append :
    (t : ℕ) (es : List WalEntry) (e : WalEntry) (ts : Option ℕ)
    → last_commit t (es ++ e ∷ []) ts ≡ last_commit t (e ∷ []) (last_commit t es ts)
unfolding last_commit
last_commit-append t [] e ts = refl
last_commit-append t (x ∷ es) e ts = last_commit-append t es e _

-- A `Commit` at the end decides for a transaction with something to replay.
module _ (t ts inserted_at : ℕ) where
  abbrev last : WalEntry
  last = record { txn_id = t; record_of = commit ts inserted_at }

  live_last : (ops : Option (List WalEntry)) → live_ops t (last ∷ []) ops ≡ ops
  unfolding live_ops live_step
  live_last ops = ground (arith, ==_refl t)

  commit_last : (o : Option ℕ) → last_commit t (last ∷ []) o ≡ some ts
  unfolding last_commit
  commit_last o = ground (arith, ==_refl t)

  pub logged_ts-commit :
      (es ops : List WalEntry)
      → live_ops t es none ≡ some ops
      → logged_ts t (es ++ last ∷ []) ≡ some ts
  unfolding logged_ts
  logged_ts-commit es ops h =
      let live : live_ops t (es ++ last ∷ []) none ≡ some ops =
        live_ops-append t es last none ∙ live_last (live_ops t es none) ∙ h in
      rw (live, logged_ts) (last_commit-append t es last none ∙ commit_last (last_commit t es none))
