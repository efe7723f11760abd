-- ===== src/Tests/Recovery.antt =====
-- Runs of the replay: transaction 1 commits, transaction 2 does not.
use z1kv.Common.{ℕ, ◌≡◌, refl, true, none, List, [], ◌∷◌, here, suc}
use z1kv.Errors.{Result, ok}
use z1kv.Wal.Record.{WalRecord, WalEntry, begin, commit}
use z1kv.Wal.Recovery.{RecoveryResult, done, replay_committed_ops}
use z1kv.Wal.Recovery.Laws.{has_commit, replay_committed_ops-commits}
use z1kv.Wal.Recovery.Exact.{Rebuilt, replay_committed_ops-Rebuilt}

program : Unit {0}
unfolding replay_committed_ops
program = tt

abbrev entry : ℕ → WalRecord → WalEntry
entry id r = record { txn_id = id; record_of = r }

abbrev written : ℕ → WalRecord
written k = WalRecord.put 0 (k ∷ []) none

abbrev records : List WalEntry
records =
    entry 1 begin
    ∷ entry 2 begin
    ∷ entry 1 (written 7)
    ∷ entry 2 (written 8)
    ∷ entry 1 (commit 1 5000)
    ∷ []

-- An engine that counts the writes.
abbrev counting : WalEntry → ℕ → ℕ × Result (Unit {0})
counting op n = (suc n, ok tt)

abbrev result : RecoveryResult
result = record {
  last_committed_txn = 1;
  max_seen_committed_txn = 1;
  committed_count = 1;
  discarded_count = 1;
  commit_ts_map = (1, 1) ∷ [];
  inserted_at_map = (1, 5000) ∷ [];
  replay_watermark = 5000;
  committed_puts = (1, written 7) ∷ [];
}

replay : replay_committed_ops counting true (ok records) 0 ≡ (1, done result)
unfolding program
replay = refl

replay_committed_ops-commits_example : has_commit 1 records ≡ true
replay_committed_ops-commits_example =
    replay_committed_ops-commits counting true records 0 1 result 1 (written 7) replay (here refl)

replay_committed_ops-Rebuilt_example :
    (u : ℕ) × (q : RecoveryResult) × (replay_committed_ops counting true (ok records) 0
      ≡ (u, done q))
    × Rebuilt counting true (λ op n. (suc n, refl)) records q
replay_committed_ops-Rebuilt_example =
    replay_committed_ops-Rebuilt counting true (λ op n. (suc n, refl)) records 0
