-- ===== src/Mvcc/Prune.antt =====
-- `VisibilityManager::prune_history`: eviction by count and by age. `now_ms` is the reading of
-- `current_timestamp_millis` that the call makes.
pub mod Keeps
pub mod Ages
pub mod Bound
use z1kv.Common.{
  ℕ, suc, ◌+◌, ◌-◌, ◌*◌, ◌/◌, ◌%◌, ◌^◌, max, Bool, List, [], ◌∷◌, take, length, ltb, leb, ◌||◌,
  if◌then◌else◌,
}
use z1kv.Common.Map.{Map, remove, keep, contains_key}
use z1kv.Mvcc.Types.{VisibilityManager}

-- `(inserted_at, txn_id)` of every entry, in the map's order.
unfoldable pub items_of : Map (ℕ × ℕ) → List (ℕ × ℕ)
items_of [] = []
items_of ((k, (ts, inserted_at)) ∷ h) = (inserted_at, k) ∷ items_of h

-- `sort_by_key(|i| i.0)`, which is stable.
unfoldable pub insert_item : ℕ × ℕ → List (ℕ × ℕ) → List (ℕ × ℕ)
insert_item x [] = x ∷ []
insert_item x (y ∷ ys) = let rest = insert_item x ys in if leb x.0 y.0 then x ∷ y ∷ ys else y ∷ rest

unfoldable pub sort_items : List (ℕ × ℕ) → List (ℕ × ℕ)
unfolding insert_item
sort_items [] = []
sort_items (x ∷ xs) = insert_item x (sort_items xs)

unfoldable pub remove_all : List (ℕ × ℕ) → Map (ℕ × ℕ) → Map (ℕ × ℕ)
unfolding remove
remove_all [] h = h
remove_all (x ∷ xs) h = remove_all xs (remove x.1 h)

-- Strategy 1 on the history alone: what is left when there are more than `limit` entries.
unfoldable pub evict_oldest : ℕ → Map (ℕ × ℕ) → Map (ℕ × ℕ)
unfolding items_of sort_items remove_all
evict_oldest limit h =
    let items = sort_items (items_of h) in
    let keep_count = limit * 4 / 5 in
    let evict_count = length items - keep_count in remove_all (take evict_count items) h

-- The shadow keeps the keys that are left in the history.
unfoldable pub sync_shadow : Map (ℕ × ℕ) → Map ℕ → Map ℕ
unfolding keep contains_key
sync_shadow h shadow = keep (λ k _. contains_key k h) shadow

unfoldable pub prune_by_count : VisibilityManager → VisibilityManager
unfolding evict_oldest sync_shadow
prune_by_count vm =
    if ltb vm.config.max_history_entries (length vm.committed_history)
    then (let h = evict_oldest vm.config.max_history_entries vm.committed_history in
        record vm {
          committed_history = h;
          committed_ts_shadow = sync_shadow h vm.committed_ts_shadow;
        })
    else vm

abbrev pub u64_mod : ℕ
u64_mod = 2 ^ 64

-- A check of the ages is due after 256 commits or one second.
unfoldable pub ttl_due : ℕ → VisibilityManager → Bool
ttl_due now_ms vm =
    leb 256 ((vm.commit_seq + u64_mod - vm.last_ttl_check_seq) % u64_mod)
    || leb 1000 (now_ms - vm.last_ttl_check_ms)

-- `std::cmp::max(ttl_cutoff, replay_watermark)`
unfoldable pub ttl_cutoff : ℕ → VisibilityManager → ℕ
ttl_cutoff now_ms vm =
    max (now_ms - vm.config.history_ttl_secs * 1000 % u64_mod) vm.replay_watermark

unfoldable pub prune_by_age : ℕ → VisibilityManager → VisibilityManager
unfolding ttl_due ttl_cutoff sync_shadow keep
prune_by_age now_ms vm =
    if ttl_due now_ms vm
    then (let cutoff = ttl_cutoff now_ms vm in
        let h = keep (λ _ v. leb cutoff v.1) vm.committed_history in
        record vm {
          last_ttl_check_seq = vm.commit_seq;
          last_ttl_check_ms = now_ms;
          committed_history = h;
          committed_ts_shadow = sync_shadow h vm.committed_ts_shadow;
        })
    else vm

unfoldable pub prune_history : ℕ → VisibilityManager → VisibilityManager
unfolding prune_by_count prune_by_age
prune_history now_ms vm = prune_by_age now_ms (prune_by_count vm)
