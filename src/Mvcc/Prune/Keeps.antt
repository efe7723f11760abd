-- ===== src/Mvcc/Prune/Keeps.antt =====
-- `prune_history`: the history, the shadow and the other fields of the manager.
use z1kv.Common.{
  ℕ, ◌≡◌, refl, Bool, Option, none, some, List, [], ◌∷◌, take, length, ltb, leb, ◌-◌, ◌*◌, ◌/◌, ◌∙◌,
  Option-cases, Bool-cases, inl, inr, arith,
}
use z1kv.Common.Map.{
  Map, get, remove, keep, contains_key, Distinct, get-remove, get-keep, get-keep_key,
  Distinct-remove, Distinct-keep, contains_key-get,
}
use z1kv.Mvcc.Types.{VisibilityManager}
use z1kv.Mvcc.Prune.{
  items_of, sort_items, remove_all, evict_oldest, sync_shadow, prune_by_count, prune_by_age,
  prune_history, ttl_due, ttl_cutoff,
}

-- Every entry of the one history is an entry of the other.
abbrev pub SubHistory : Map (ℕ × ℕ) → Map (ℕ × ℕ) → Type 0
SubHistory h h' = (k : ℕ) (v : ℕ × ℕ) → get k h ≡ some v → get k h' ≡ some v

-- The shadow is the projection of the history to the commit timestamps.
abbrev pub fst_of : Option (ℕ × ℕ) → Option ℕ
fst_of none = none
fst_of (some v) = some v.0

abbrev pub IsShadow : Map (ℕ × ℕ) → Map ℕ → Type 0
IsShadow h shadow = (k : ℕ) → get k shadow ≡ fst_of (get k h)

remove-SubHistory : (j : ℕ) (h : Map (ℕ × ℕ)) → SubHistory (remove j h) h
remove-SubHistory j h k v e = ground (arith, get-remove j k h)

remove_all-SubHistory : (xs : List (ℕ × ℕ)) (h : Map (ℕ × ℕ)) → SubHistory (remove_all xs h) h
unfolding remove_all
remove_all-SubHistory [] h k v e = e
remove_all-SubHistory (x ∷ xs) h k v e =
    remove-SubHistory x.1 h k v (remove_all-SubHistory xs (remove x.1 h) k v e)

remove_all-Distinct :
    (xs : List (ℕ × ℕ)) (h : Map (ℕ × ℕ)) → Distinct h → Distinct (remove_all xs h)
unfolding remove_all
remove_all-Distinct [] h d = d
remove_all-Distinct (x ∷ xs) h d = remove_all-Distinct xs (remove x.1 h) (Distinct-remove x.1 h d)

keep-SubHistory : (p : ℕ → ℕ × ℕ → Bool) (h : Map (ℕ × ℕ)) → Distinct h → SubHistory (keep p h) h
keep-SubHistory p h d k v e = ground (arith, get-keep p k h)

sync-IsShadow :
    (h h' : Map (ℕ × ℕ)) (shadow : Map ℕ)
    → SubHistory h' h
    → IsShadow h shadow
    → IsShadow h' (sync_shadow h' shadow)
unfolding sync_shadow
sync-IsShadow h h' shadow sub s k = elim (Option-cases (get k h')) [
  | inl gone ↦ ground (arith, get-keep_key (λ k. contains_key k h') k shadow, contains_key-get k h')
  | inr (v, found) ↦ ground (
    arith,
    get-keep_key (λ k. contains_key k h') k shadow,
    contains_key-get k h',
    sub k v found,
    s k,
  )
]

-- What pruning keeps, together.
pub record Pruned (vm vm' : VisibilityManager) : Type 0 where
  pub sub : SubHistory vm'.committed_history vm.committed_history
  pub distinct : Distinct vm'.committed_history
  pub committed_txn : vm'.committed_txn ≡ vm.committed_txn
  pub active_txns : vm'.active_txns ≡ vm.active_txns
  pub watermark : vm'.replay_watermark ≡ vm.replay_watermark
  pub config : vm'.config ≡ vm.config
  pub commit_seq : vm'.commit_seq ≡ vm.commit_seq
  pub shadow :
      IsShadow vm.committed_history vm.committed_ts_shadow
      → IsShadow vm'.committed_history vm'.committed_ts_shadow

Pruned-refl : (vm : VisibilityManager) → Distinct vm.committed_history → Pruned vm vm
Pruned-refl vm d = record {
  sub = λ k v e. e;
  distinct = d;
  committed_txn = refl;
  active_txns = refl;
  watermark = refl;
  config = refl;
  commit_seq = refl;
  shadow = λ s. s;
}

pub prune_by_count-Pruned :
    (vm : VisibilityManager) → Distinct vm.committed_history → Pruned vm (prune_by_count vm)
unfolding prune_by_count evict_oldest
prune_by_count-Pruned vm d =
    elim (Bool-cases (ltb vm.config.max_history_entries (length vm.committed_history))) [
      | inr small ↦ rw small (Pruned-refl vm d)
      | inl large ↦
          let h : Map (ℕ × ℕ) = vm.committed_history in
          let xs : List (ℕ × ℕ) =
            take (length (sort_items (items_of h)) - vm.config.max_history_entries * 4 / 5)
              (sort_items (items_of h)) in
          rw large (record {
            sub = remove_all-SubHistory xs h;
            distinct = remove_all-Distinct xs h d;
            committed_txn = refl;
            active_txns = refl;
            watermark = refl;
            config = refl;
            commit_seq = refl;
            shadow =
                sync-IsShadow h (remove_all xs h) vm.committed_ts_shadow
                  (remove_all-SubHistory xs h);
          })
    ]

prune_by_age-Pruned :
    (now_ms : ℕ) (vm : VisibilityManager)
    → Distinct vm.committed_history
    → Pruned vm (prune_by_age now_ms vm)
unfolding prune_by_age
prune_by_age-Pruned now_ms vm d = elim (Bool-cases (ttl_due now_ms vm)) [
  | inr early ↦ rw early (Pruned-refl vm d)
  | inl due ↦
      let h : Map (ℕ × ℕ) = vm.committed_history in
      let p : ℕ → ℕ × ℕ → Bool = λ _ v. leb (ttl_cutoff now_ms vm) v.1 in
      rw due (record {
        sub = keep-SubHistory p h d;
        distinct = Distinct-keep p h d;
        committed_txn = refl;
        active_txns = refl;
        watermark = refl;
        config = refl;
        commit_seq = refl;
        shadow = sync-IsShadow h (keep p h) vm.committed_ts_shadow (keep-SubHistory p h d);
      })
]

Pruned-trans : {a b c : VisibilityManager} → Pruned a b → Pruned b c → Pruned a c
Pruned-trans p q = record {
  sub = λ k v e. p.sub k v (q.sub k v e);
  distinct = q.distinct;
  committed_txn = q.committed_txn ∙ p.committed_txn;
  active_txns = q.active_txns ∙ p.active_txns;
  watermark = q.watermark ∙ p.watermark;
  config = q.config ∙ p.config;
  commit_seq = q.commit_seq ∙ p.commit_seq;
  shadow = λ s. q.shadow (p.shadow s);
}

pub prune_history-Pruned :
    (now_ms : ℕ) (vm : VisibilityManager)
    → Distinct vm.committed_history
    → Pruned vm (prune_history now_ms vm)
unfolding prune_history
prune_history-Pruned now_ms vm d =
    let p : Pruned vm (prune_by_count vm) = prune_by_count-Pruned vm d in
    Pruned-trans p (prune_by_age-Pruned now_ms (prune_by_count vm) p.distinct)
