-- ===== src/Mvcc/Prune/Ages.antt =====
-- Eviction by age.
use z1kv.Common.{
  ℕ, ◌≡◌, ◌≤◌, ◌<◌, ◌∙◌, refl, true, none, some, length, leb, ltb, Option-cases, Bool-cases, inl,
  inr, arith,
}
use z1kv.Common.Map.{get, Distinct, get-keep}
use z1kv.Mvcc.Types.{VisibilityManager}
use z1kv.Mvcc.Prune.{prune_by_count, prune_by_age, prune_history, ttl_due, ttl_cutoff}
use z1kv.Mvcc.Prune.Keeps.{prune_by_count-Pruned, prune_history-Pruned}

-- A history within the limit is not touched by the count.
prune_by_count_within :
    (vm : VisibilityManager)
    → length vm.committed_history ≤ vm.config.max_history_entries
    → prune_by_count vm ≡ vm
unfolding prune_by_count
prune_by_count_within vm h = ground arith

-- An entry that is young enough survives.
get-prune_by_age :
    (now_ms k : ℕ) (v : ℕ × ℕ) (vm : VisibilityManager)
    → Distinct vm.committed_history
    → get k vm.committed_history ≡ some v
    → ttl_cutoff now_ms vm ≤ v.1
    → get k (prune_by_age now_ms vm).committed_history ≡ some v
unfolding prune_by_age
get-prune_by_age now_ms k v vm d e young = elim (Bool-cases (ttl_due now_ms vm)) [
  | inr early ↦ rw (early, prune_by_age) e
  | inl due ↦
      rw (due, prune_by_age)
        (ground (arith, get-keep (λ _ v. leb (ttl_cutoff now_ms vm) v.1) k vm.committed_history))
]

pub get-prune_history :
    (now_ms k : ℕ) (v : ℕ × ℕ) (vm : VisibilityManager)
    → Distinct vm.committed_history
    → length vm.committed_history ≤ vm.config.max_history_entries
    → get k vm.committed_history ≡ some v
    → ttl_cutoff now_ms vm ≤ v.1
    → get k (prune_history now_ms vm).committed_history ≡ some v
unfolding prune_history
get-prune_history now_ms k v vm d small e young =
    rw (prune_by_count_within vm small) (get-prune_by_age now_ms k v vm d e young)

-- The count changes nothing that the check of the ages looks at.
ttl-prune_by_count :
    (now_ms : ℕ) (vm : VisibilityManager)
    → (ttl_due now_ms (prune_by_count vm) ≡ ttl_due now_ms vm)
      × (ttl_cutoff now_ms (prune_by_count vm) ≡ ttl_cutoff now_ms vm)
unfolding prune_by_count ttl_due ttl_cutoff
ttl-prune_by_count now_ms vm =
    elim (Bool-cases (ltb vm.config.max_history_entries (length vm.committed_history))) [
      | inl large ↦ rw large (refl, refl)
      | inr small ↦ rw small (refl, refl)
    ]

prune_by_age-cutoff :
    (now_ms k : ℕ) (v : ℕ × ℕ) (vm : VisibilityManager)
    → Distinct vm.committed_history
    → ttl_due now_ms vm ≡ true
    → get k (prune_by_age now_ms vm).committed_history ≡ some v
    → ttl_cutoff now_ms vm ≤ v.1
unfolding prune_by_age
prune_by_age-cutoff now_ms k v vm d due e =
    ground (arith, get-keep (λ _ v. leb (ttl_cutoff now_ms vm) v.1) k vm.committed_history)

-- When the check of the ages is due, every entry that survives was inserted at or after the cutoff.
pub prune_history-cutoff :
    (now_ms k : ℕ) (v : ℕ × ℕ) (vm : VisibilityManager)
    → Distinct vm.committed_history
    → ttl_due now_ms vm ≡ true
    → get k (prune_history now_ms vm).committed_history ≡ some v
    → ttl_cutoff now_ms vm ≤ v.1
unfolding prune_history
prune_history-cutoff now_ms k v vm d due e =
    let (same_due, same_cutoff) = ttl-prune_by_count now_ms vm in
    rw (← same_cutoff) (
      prune_by_age-cutoff now_ms k v (prune_by_count vm) ((prune_by_count-Pruned vm d).distinct)
        (same_due ∙ due) e)

-- When the check of the ages is due, pruning evicts every history entry that was inserted before
-- the replay watermark, whatever the time to live is.
pub prune_history-evicts_below_watermark :
    (now_ms k : ℕ) (v : ℕ × ℕ) (vm : VisibilityManager)
    → Distinct vm.committed_history
    → ttl_due now_ms vm ≡ true
    → get k vm.committed_history ≡ some v
    → v.1 < vm.replay_watermark
    → get k (prune_history now_ms vm).committed_history ≡ none
unfolding ttl_cutoff
prune_history-evicts_below_watermark now_ms k v vm d due e old =
    elim (Option-cases (get k (prune_history now_ms vm).committed_history)) [
      | inl gone ↦ gone
      | inr (u, found) ↦ absurd (
          ground (
            arith,
            prune_history-cutoff now_ms k u vm d due found,
            (prune_history-Pruned now_ms vm d).sub k u found,
          ))
    ]
