-- ===== src/Tests/Store.antt =====
-- Runs of the GC merge and of the commit protocol.
use z1kv.Common.{
  ℕ, ◌≡◌, ◌+◌, refl, Bool, true, false, none, some, List, [], ◌∷◌, ◌==◌, if◌then◌else◌, arith,
}
use z1kv.Common.Bytes.{Bytes}
use z1kv.Errors.{ok, err, io, other}
use z1kv.Store.Types.{PatchEntry}
use z1kv.Store.Types.Sorting.{newest, of_key}
use z1kv.Store.Gc.{gc_entries}
use z1kv.Store.Gc.Laws.{gc_entries-newest, gc_entries-loses_rolled_back}
use z1kv.Txn.Protocol.{put_committed_txn, mvcc_commit, CommitApplier, apply_ops, apply_op}

abbrev key : Bytes
key = 107 ∷ []

abbrev version : ℕ → PatchEntry
version txn_id = record { key = key; value = some (118 ∷ []); txn_id = txn_id }

-- Out of order, with two versions below the watermark 10.
abbrev versions : List PatchEntry
versions = version 12 ∷ version 4 ∷ version 7 ∷ []

abbrev all_seen : ℕ → Bool
all_seen _ = true

gc_entries-newest_example :
    newest (of_key key all_seen) (gc_entries versions 10).0 ≡ newest (of_key key all_seen) versions
gc_entries-newest_example = gc_entries-newest key all_seen 10 versions (refl, (refl, (refl, tt)))

-- Transaction 7 was rolled back.
abbrev without_seven : ℕ → Bool
without_seven id = if id == 7 then false else true

gc_entries-loses_rolled_back_example :
    (newest (of_key key without_seven) (version 4 ∷ version 7 ∷ []) ≡ some (version 4))
    × (newest (of_key key without_seven) (gc_entries (version 4 ∷ version 7 ∷ []) 10).0 ≡ none)
gc_entries-loses_rolled_back_example =
    gc_entries-loses_rolled_back key without_seven 10 (version 4) (version 7) refl refl
      (omega arith) (omega arith) refl refl

-- An applier that counts the calls and cannot store the counter.
abbrev counting : CommitApplier ℕ
counting = record {
  apply_mvcc_commit = λ txn_id inserted_at calls. (calls + 1, ok tt);
  apply_put_committed_txn = λ counter calls. (calls + 1, err (io other));
  apply_commit_txn_record = λ txn_id commit_ts calls. (calls + 1, ok tt);
  apply_snapshot_invalidate = λ calls. (calls + 1, ok tt);
}

first_done : apply_ops counting 9 (mvcc_commit 5000 ∷ []) 0 ≡ (1, ok tt)
unfolding apply_ops
first_done = refl

second_fails : apply_op counting 9 (put_committed_txn 9) 1 ≡ (2, err (io other))
unfolding apply_op
second_fails = refl
