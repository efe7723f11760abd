-- ===== src/Tests/Prune.antt =====
-- Runs of the eviction of history entries.
use z1kv.Common.{ℕ, ◌≡◌, ◌*◌, ◌/◌, refl, true, none, some, [], ◌∷◌, length, arith}
use z1kv.Common.Map.{Map, get, Distinct, contains_key}
use z1kv.Mvcc.Types.{VisibilityManager, new_with_config}
use z1kv.Mvcc.Prune.{evict_oldest, prune_history, ttl_due, ttl_cutoff}
use z1kv.Mvcc.Prune.Ages.{prune_history-evicts_below_watermark}
use z1kv.Mvcc.Prune.Bound.{length-evict_oldest}

program : Unit {0}
unfolding get contains_key evict_oldest prune_history ttl_due ttl_cutoff new_with_config
program = tt

-- Six entries: the commit timestamps rise with the ids, the insertion times fall.
abbrev six : Map (ℕ × ℕ)
six = (1, (1, 60)) ∷ (2, (2, 50)) ∷ (3, (3, 40)) ∷ (4, (4, 30)) ∷ (5, (5, 20)) ∷ (6, (6, 10)) ∷ []

six-Distinct : Distinct six
unfolding program
six-Distinct = (refl, (refl, (refl, (refl, (refl, (refl, tt))))))

length-evict_oldest_example : length (evict_oldest 5 six) ≡ 5 * 4 / 5
length-evict_oldest_example = length-evict_oldest 5 six six-Distinct (omega arith)

six_evicted : get 6 (evict_oldest 5 six) ≡ none
unfolding program
six_evicted = refl

one_kept : get 1 (evict_oldest 5 six) ≡ some (1, 60)
unfolding program
one_kept = refl

six_there : get 6 six ≡ some (6, 10)
unfolding program
six_there = refl

-- A manager whose replay watermark is past the insertion of transactions 3 to 6.
abbrev replayed : VisibilityManager
replayed = record (new_with_config (record { max_history_entries = 100; history_ttl_secs = 60 })) {
  committed_history = six;
  replay_watermark = 45;
}

replayed_due : ttl_due 2000 replayed ≡ true
unfolding program
replayed_due = refl

two_survives : get 2 (prune_history 2000 replayed).committed_history ≡ some (2, 50)
unfolding program
two_survives = refl

three_there : get 3 six ≡ some (3, 40)
unfolding program
three_there = refl

prune_history-evicts_below_watermark_example :
    get 3 (prune_history 2000 replayed).committed_history ≡ none
prune_history-evicts_below_watermark_example =
    prune_history-evicts_below_watermark 2000 3 (3, 40) replayed six-Distinct replayed_due
      three_there (omega arith)
