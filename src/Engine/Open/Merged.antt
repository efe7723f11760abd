-- ===== src/Engine/Open/Merged.antt =====
-- `merged_history` of `open_with_config`, and the manager that recovers it.
use z1kv.Common.{
  ℕ, max, ◌≡◌, ◌≤◌, ◌∙◌, refl, sym, ap, true, Option, none, some, [], ◌∷◌, ==_iff, Option-cases,
  inl, inr, arith,
}
use z1kv.Common.Map.{
  Map, get, insert, contains_key, get-insert, contains_key-get, Distinct, Distinct-insert,
}
use z1kv.Mvcc.Types.{VisibilityManager, VisibilityConfig, new_with_config}
use z1kv.Mvcc.Manager.{recover_committed_history, get_commit_ts}
use z1kv.Mvcc.Manager.Wf.{Wf}
use z1kv.Mvcc.Manager.Wf.Recovered.{recover_committed_history-Wf}
use z1kv.Mvcc.Manager.Wf.Histories.{
  or_else, get_commit_ts-recover_entries, committed_txn-recover_entries,
  active_txns-recover_entries,
}
use z1kv.Wal.Recovery.{RecoveryResult}
use z1kv.Engine.Open.{merge_history, recover_mvcc}

get-merge_history :
    (entries history : Map ℕ) (t : ℕ)
    → Distinct entries
    → get t (merge_history entries history) ≡ or_else (get t entries) (get t history)
unfolding merge_history get contains_key
get-merge_history [] history t d = refl
get-merge_history ((k, ts) ∷ entries) history t d =
    get-merge_history entries (insert k ts history) t d.1
    ∙ ground (arith, d.0, get-insert k t ts history, contains_key-get t entries, ==_iff k t)

Distinct-merge_history :
    (entries history : Map ℕ) → Distinct history → Distinct (merge_history entries history)
unfolding merge_history
Distinct-merge_history [] history d = d
Distinct-merge_history ((k, ts) ∷ entries) history d =
    Distinct-merge_history entries (insert k ts history) (Distinct-insert k ts history d)

or_else-none : (o : Option ℕ) → or_else o none ≡ o
or_else-none none = refl
or_else-none (some n) = refl

-- The manager behind a checkpoint whose ids are not past its own, and a log.
module _ (config : VisibilityConfig) (now : ℕ) (baseline : ℕ × Map ℕ) (q : RecoveryResult)
    (old : (k v : ℕ) → get k baseline.1 ≡ some v → k ≤ baseline.0)
    (old_distinct : Distinct baseline.1)
    (seen : (k v : ℕ) → get k q.commit_ts_map ≡ some v → k ≤ q.max_seen_committed_txn)
    (distinct : Distinct q.commit_ts_map) where
  abbrev merged : Map ℕ
  merged = merge_history q.commit_ts_map (merge_history baseline.1 [])

  abbrev last : ℕ
  last = max baseline.0 q.max_seen_committed_txn

  abbrev fresh : VisibilityManager
  fresh = record (new_with_config config) { committed_txn = last }

  merged-get : (t : ℕ) → get t merged ≡ or_else (get t q.commit_ts_map) (get t baseline.1)
  unfolding get
  merged-get t =
      get-merge_history q.commit_ts_map (merge_history baseline.1 []) t distinct
      ∙ ap (or_else (get t q.commit_ts_map))
          (get-merge_history baseline.1 [] t old_distinct ∙ or_else-none (get t baseline.1))

  merged-le : (t : ℕ) → contains_key t merged ≡ true → t ≤ last
  merged-le t c = elim (Option-cases (get t q.commit_ts_map)) [
    | inr (v, found) ↦ omega (arith, seen t v found)
    | inl unlogged ↦ elim (Option-cases (get t baseline.1)) [
      | inr (v, found) ↦ omega (arith, old t v found)
      | inl unsaved ↦
          absurd (cc (sym c ∙ contains_key-get t merged, merged-get t, unlogged, unsaved))
    ]
  ]

  fresh-Wf : Wf fresh
  unfolding new_with_config get
  fresh-Wf = record {
    distinct_active = tt;
    distinct_history = tt;
    history_le = λ k v e. ground arith;
    disjoint = λ k m e. refl;
    begun = λ k m e. ground arith;
  }

  pub recover_mvcc-Wf : Wf (recover_mvcc config now baseline q)
  unfolding recover_mvcc new_with_config
  recover_mvcc-Wf =
      let w = recover_committed_history-Wf merged none q.inserted_at_map now fresh refl fresh-Wf in
      record {
        distinct_active = w.distinct_active;
        distinct_history = w.distinct_history;
        history_le = w.history_le;
        disjoint = w.disjoint;
        begun = w.begun;
      }

  pub recover_mvcc-idle : (recover_mvcc config now baseline q).active_txns ≡ []
  unfolding recover_mvcc recover_committed_history new_with_config
  recover_mvcc-idle = active_txns-recover_entries merged now q.inserted_at_map _

  pub recover_mvcc-le : (recover_mvcc config now baseline q).committed_txn ≤ last
  unfolding recover_mvcc recover_committed_history
  recover_mvcc-le =
      committed_txn-recover_entries merged now q.inserted_at_map _ last merged-le (omega arith)

  pub recover_mvcc-history :
      (t : ℕ)
      → get_commit_ts t (recover_mvcc config now baseline q)
        ≡ or_else (get t q.commit_ts_map) (get t baseline.1)
  unfolding recover_mvcc recover_committed_history get_commit_ts get
  recover_mvcc-history t =
      get_commit_ts-recover_entries merged now q.inserted_at_map _ t (
        Distinct-merge_history q.commit_ts_map (merge_history baseline.1 [])
          (Distinct-merge_history baseline.1 [] tt))
      ∙ or_else-none (get t merged)
      ∙ merged-get t
