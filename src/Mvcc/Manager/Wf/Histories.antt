-- ===== src/Mvcc/Manager/Wf/Histories.antt =====
-- The history that `recover_committed_history_with_config` makes of its entries.
use z1kv.Common.{
  ℕ, ◌≡◌, ◌≤◌, ◌∙◌, refl, ap, true, ==_refl, ==_iff, Option, none, some, [], ◌∷◌, ltb, ◌==◌,
  if◌then◌else◌, arith,
}
use z1kv.Common.Map.{Map, get, insert, contains_key, get-insert, contains_key-get, Distinct}
use z1kv.Mvcc.Types.{VisibilityManager}
use z1kv.Mvcc.Manager.{recover_entries, get_commit_ts}

abbrev pub or_else : Option ℕ → Option ℕ → Option ℕ
or_else none b = b
or_else (some n) b = some n

one_entry :
    (t k ts at_ms n : ℕ) (vm : VisibilityManager)
    → get_commit_ts t (record vm {
      committed_history = insert k (ts, at_ms) vm.committed_history;
      committed_txn = n;
    })
      ≡ (if k == t then some ts else get_commit_ts t vm)
unfolding get_commit_ts
one_entry t k ts at_ms n vm = ground (arith, get-insert k t (ts, at_ms) vm.committed_history)

pub get_commit_ts-recover_entries :
    (history : Map ℕ) (now : ℕ) (ins : Map ℕ) (vm : VisibilityManager) (t : ℕ)
    → Distinct history
    → get_commit_ts t (recover_entries history now ins vm)
      ≡ or_else (get t history) (get_commit_ts t vm)
unfolding recover_entries get contains_key
get_commit_ts-recover_entries [] now ins vm t d = refl
get_commit_ts-recover_entries ((k, ts) ∷ history) now ins vm t d =
    get_commit_ts-recover_entries history now ins _ t d.1
    ∙ ap (or_else (get t history)) (one_entry t k ts _ _ vm)
    ∙ in_front k ts (get_commit_ts t vm) t history d
  where
    in_front :
        (k ts : ℕ) (o : Option ℕ) (t : ℕ) (history : Map ℕ)
        → Distinct ((k, ts) ∷ history)
        → or_else (get t history) (if k == t then some ts else o)
          ≡ or_else (if k == t then some ts else get t history) o
    in_front k ts o t history d = ground (arith, d.0, contains_key-get t history, ==_iff k t)

pub committed_txn-recover_entries :
    (history : Map ℕ) (now : ℕ) (ins : Map ℕ) (vm : VisibilityManager) (n : ℕ)
    → ((k : ℕ) → contains_key k history ≡ true → k ≤ n)
    → vm.committed_txn ≤ n
    → (recover_entries history now ins vm).committed_txn ≤ n
unfolding recover_entries contains_key
committed_txn-recover_entries [] now ins vm n b l = l
committed_txn-recover_entries ((k, ts) ∷ history) now ins vm n b l =
    committed_txn-recover_entries history now ins _ n (λ j h. b j (ground (arith, h)))
      (raised (b k (ground (arith, ==_refl k))))
  where
    raised : k ≤ n → (if ltb vm.committed_txn k then k else vm.committed_txn) ≤ n
    raised b = ground (arith, b, l)

pub active_txns-recover_entries :
    (history : Map ℕ) (now : ℕ) (ins : Map ℕ) (vm : VisibilityManager)
    → (recover_entries history now ins vm).active_txns ≡ vm.active_txns
unfolding recover_entries
active_txns-recover_entries [] now ins vm = refl
active_txns-recover_entries ((k, ts) ∷ history) now ins vm =
    active_txns-recover_entries history now ins _
