-- ===== src/Mvcc/Manager/Snapshots.antt =====
-- What the snapshots of a manager show.
use z1kv.Common.{
  ℕ, ◌≡◌, ◌≤◌, ◌<◌, refl, sym, ap, subst, ◌∙◌, max, Bool, true, false, not, ◌&&◌, Option, none,
  some, [], ◌∷◌, leb, ==_iff, Option-cases, Bool-cases, inl, inr, if◌then◌else◌, arith,
}
use z1kv.Common.Map.{Map, get, insert, contains_key, Distinct, get-insert, contains_key-get}
use z1kv.Errors.{Result, ok}
use z1kv.Mvcc.Types.{TxnMeta, TxnSnapshot, IsolationLevel, VisibilityManager, contains, new_meta}
use z1kv.Mvcc.Filter.{deleted_before, manager_is_row_visible, is_visible}
use z1kv.Mvcc.Prune.Keeps.{fst_of}
use z1kv.Mvcc.Manager.{
  active_ids, max_commit_ts, commits_until, take_snapshot, begin_txn, with_snapshot,
  begin_txn_with_snapshot,
}
use z1kv.Mvcc.Manager.Wf.{Wf, begin_txn-Wf}

contains-active_ids : (k : ℕ) (m : Map TxnMeta) → contains k (active_ids m) ≡ contains_key k m
unfolding contains active_ids contains_key
contains-active_ids k [] = refl
contains-active_ids k ((id, meta) ∷ m) = ground (arith, contains-active_ids k m)

get-le-max_commit_ts :
    (k : ℕ) (h : Map (ℕ × ℕ)) (v : ℕ × ℕ) → get k h ≡ some v → v.0 ≤ max_commit_ts h
unfolding get max_commit_ts
get-le-max_commit_ts k [] v e = ground arith
get-le-max_commit_ts k ((id, (ts, ins)) ∷ h) v e = ground (arith, get-le-max_commit_ts k h v)

-- A limit that is at least every timestamp filters nothing out.
get-commits_until_max :
    (limit k : ℕ) (h : Map (ℕ × ℕ))
    → max_commit_ts h ≤ limit
    → get k (commits_until limit h) ≡ fst_of (get k h)
unfolding get max_commit_ts commits_until
get-commits_until_max limit k [] le = refl
get-commits_until_max limit k ((id, (ts, ins)) ∷ h) le =
    ground (arith, get-commits_until_max limit k h)

contains_key-commits_until :
    (limit k : ℕ) (h : Map (ℕ × ℕ))
    → contains_key k h ≡ false
    → get k (commits_until limit h) ≡ none
unfolding get contains_key commits_until
contains_key-commits_until limit k [] e = refl
contains_key-commits_until limit k ((id, (ts, ins)) ∷ h) e =
    ground (arith, contains_key-commits_until limit k h)

-- Under any limit, on a map.
get-commits_until :
    (limit k : ℕ) (h : Map (ℕ × ℕ))
    → Distinct h
    → get k (commits_until limit h)
      ≡ (elim (get k h) [ none ↦ none | some v ↦ if leb v.0 limit then some v.0 else none ])
unfolding get commits_until
get-commits_until limit k [] d = refl
get-commits_until limit k ((id, (ts, ins)) ∷ h) d =
    ground (arith, get-commits_until limit k h, contains_key-commits_until limit k h, ==_iff id k)

-- Is there a deleting transaction, and is it in the history?
unfoldable pub delete_committed : Option ℕ → VisibilityManager → Bool
delete_committed none vm = false
delete_committed (some del) vm = contains_key del vm.committed_history

module _ (isolation : IsolationLevel) (vm : VisibilityManager) (w : Wf vm) where
  active-get :
      (k : ℕ) → contains_key k vm.committed_history ≡ true → contains_key k vm.active_txns ≡ false
  active-get k c = elim (Option-cases (get k vm.active_txns)) [
    | inl gone ↦ ground (arith, contains_key-get k vm.active_txns)
    | inr (m, found) ↦
        absurd (ground (arith, contains_key-get k vm.committed_history, w.disjoint k m found))
  ]

  abbrev sid : ℕ
  sid = max vm.committed_txn (max_commit_ts vm.committed_history)

  abbrev shown : Map ℕ
  shown = commits_until sid vm.committed_history

  get-shown : (k : ℕ) → get k shown ≡ fst_of (get k vm.committed_history)
  get-shown k = get-commits_until_max sid k vm.committed_history (omega arith)

  deleted_before-shown :
      (deleted : Option ℕ)
      → deleted_before sid deleted (active_ids vm.active_txns) shown ≡ delete_committed deleted vm
  unfolding deleted_before delete_committed
  deleted_before-shown none = refl
  deleted_before-shown (some del) = elim (Option-cases (get del vm.committed_history)) [
    | inl gone ↦ ground (arith, get-shown del, gone, contains_key-get del vm.committed_history)
    | inr (v, found) ↦ ground (
      arith,
      get-shown del,
      contains_key-get del vm.committed_history,
      contains-active_ids del vm.active_txns,
      active-get del,
      get-le-max_commit_ts del vm.committed_history v found,
    )
  ]

  -- On a well-formed manager a snapshot shows a row exactly when the transaction that created it
  -- is in the committed history and the one that deleted it, if any, is not.
  pub take_snapshot-visible :
      (created : ℕ) (deleted : Option ℕ)
      → is_visible (take_snapshot isolation vm) created deleted
        ≡ (contains_key created vm.committed_history && not (delete_committed deleted vm))
  unfolding is_visible take_snapshot manager_is_row_visible
  take_snapshot-visible created deleted = elim (Option-cases (get created vm.committed_history)) [
    | inl gone ↦
        ground (arith, get-shown created, gone, contains_key-get created vm.committed_history)
    | inr (v, found) ↦ ground (
      arith,
      get-shown created,
      contains_key-get created vm.committed_history,
      contains-active_ids created vm.active_txns,
      active-get created,
      get-le-max_commit_ts created vm.committed_history v found,
      w.history_le created v found,
      deleted_before-shown deleted,
    )
  ]

-- The state that a successful `begin_txn` leaves.
abbrev registered : ℕ → VisibilityManager → VisibilityManager
registered txn_id vm = record vm { active_txns = insert txn_id (new_meta txn_id) vm.active_txns }

begin_txn_with_snapshot-ok :
    (txn_id : ℕ) (isolation : IsolationLevel) (vm vm' : VisibilityManager) (s : TxnSnapshot)
    → begin_txn_with_snapshot txn_id isolation vm ≡ (vm', ok s)
    → (begin_txn txn_id vm ≡ (registered txn_id vm, ok tt))
      × (vm' ≡ registered txn_id vm)
      × (s ≡ take_snapshot isolation (registered txn_id vm))
unfolding begin_txn_with_snapshot begin_txn
begin_txn_with_snapshot-ok txn_id isolation vm vm' s e =
    elim (Bool-cases (contains_key txn_id vm.active_txns)) [
      | inl busy ↦ absurd (ground arith)
      | inr idle ↦ elim (Bool-cases (leb txn_id vm.committed_txn)) [
        | inl old ↦ absurd (ground arith)
        | inr fresh ↦
            let done : begin_txn txn_id vm ≡ (registered txn_id vm, ok tt) = rw (idle, fresh) in
            let e' : ◌≡◌ {A = VisibilityManager × Result TxnSnapshot}
                (registered txn_id vm, ok (take_snapshot isolation (registered txn_id vm)))
                (vm', ok s) =
              sym (ap (with_snapshot isolation) done) ∙ e in
            (done, cc, cc)
      ]
    ]

module _ (txn_id : ℕ) (isolation : IsolationLevel) (vm : VisibilityManager) (w : Wf vm) where
  registered-isolates :
      begin_txn txn_id vm ≡ (registered txn_id vm, ok tt)
      → (created : ℕ)
      → is_visible (take_snapshot isolation (registered txn_id vm)) created none
        ≡ contains_key created vm.committed_history
  unfolding delete_committed
  registered-isolates e created = ground (
    arith,
    take_snapshot-visible isolation (registered txn_id vm)
        (subst Wf (ap (λ r. r.0) e) (begin_txn-Wf txn_id vm w)) created none,
  )

  history_past :
      (created : ℕ) → vm.committed_txn < created → contains_key created vm.committed_history ≡ false
  history_past created h = elim (Option-cases (get created vm.committed_history)) [
    | inl gone ↦ ground (arith, contains_key-get created vm.committed_history)
    | inr (v, found) ↦ absurd (omega (arith, w.history_le created v found))
  ]

-- A transaction that begins is registered, and its pinned snapshot shows exactly the rows of the
-- transactions committed at that moment: neither its own nor those of any other transaction that
-- is active then or begins later.
pub begin_txn_with_snapshot-isolates :
    (txn_id : ℕ) (isolation : IsolationLevel) (vm vm' : VisibilityManager) (s : TxnSnapshot)
    → Wf vm
    → begin_txn_with_snapshot txn_id isolation vm ≡ (vm', ok s)
    → (contains_key txn_id vm'.active_txns ≡ true)
      × (vm'.committed_history ≡ vm.committed_history)
      × ((created : ℕ) → is_visible s created none ≡ contains_key created vm.committed_history)
      × ((created : ℕ) → vm.committed_txn < created → is_visible s created none ≡ false)
begin_txn_with_snapshot-isolates txn_id isolation vm vm' s w e =
    let (done, to, snap) = begin_txn_with_snapshot-ok txn_id isolation vm vm' s e in
    (
      rw to (
          ground (
            arith,
            contains_key-get txn_id (registered txn_id vm).active_txns,
            get-insert txn_id txn_id (new_meta txn_id) vm.active_txns,
          )),
      rw to,
      λ created. rw snap (registered-isolates txn_id isolation vm w done created),
      λ created h. rw snap (
          registered-isolates txn_id isolation vm w done created
          ∙ history_past txn_id isolation vm w created h),
    )
