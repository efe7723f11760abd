-- ===== src/Tests/Threads.antt =====
-- Runs of the snapshot cache between threads.
use z1kv.Common.{ℕ, zero, suc, ◌≡◌, refl, some, [], ◌∷◌}
use z1kv.Common.Map.{get, insert}
use z1kv.Mvcc.Types.{VisibilityConfig, VisibilityManager, TxnSnapshot, snapshot, new_with_config}
use z1kv.Mvcc.Manager.{begin_txn, commit_txn, take_snapshot}
use z1kv.Mvcc.Cache.{new_snapshot_cache}
use z1kv.Mvcc.Cache.Threads.{
  Threads, Reach, initial, later, calls_snapshot, reads, calls_invalidate, mutates, called, loaded,
  missed, built, validated, returned, cleared, read_step, lookup_entry,
}
use z1kv.Mvcc.Cache.Calm.{TakenIn}
use z1kv.Mvcc.Cache.Fresh.{snapshot-fresh}

abbrev config : VisibilityConfig
config = record { max_history_entries = 4; history_ttl_secs = 60 }

-- Transaction 1 commits at the first mutation.
abbrev managers : ℕ → VisibilityManager
managers zero = (begin_txn 1 (new_with_config config)).0
managers (suc n) = (commit_txn 1 5000 1 6000 (begin_txn 1 (new_with_config config)).0).0

abbrev begun : Threads
begun = record {
  shared = record { cache = new_snapshot_cache; moment = 0; cleared_at = 0 };
  readers = [];
  invalidators = [];
}

abbrev shown : TxnSnapshot
shown = take_snapshot snapshot (managers 1)

-- The commit, its invalidation up to the clearing, and a call of `snapshot`.
abbrev read_back : Threads
read_back = record {
  shared = record {
    cache = record { generation = 1; full_cache = some (record { built_in = 1; cached = shown }) };
    moment = 1;
    cleared_at = 1;
  };
  readers = (5, returned 1 shown) ∷ [];
  invalidators = (7, cleared) ∷ [];
}

run : Reach managers begun read_back
unfolding get insert read_step lookup_entry
run =
    later
      (later
        (later
          (later
            (later
              (later
                (later (later initial (mutates (λ id r found. absurd (cc (found)))))
                  (calls_invalidate 7))
                (calls_snapshot 5))
              (reads 5 (called 1) refl))
            (reads 5 (loaded 1 1) refl))
          (reads 5 (missed 1 1) refl))
        (reads 5 (built 1 1 shown) refl))
      (reads 5 (validated 1 1 shown) refl)

there : get 5 read_back.readers ≡ some (returned 1 shown)
unfolding get
there = refl

snapshot-fresh_example : TakenIn managers 1 1 shown
snapshot-fresh_example =
    snapshot-fresh managers new_snapshot_cache refl 0 read_back run 5 1 shown there
