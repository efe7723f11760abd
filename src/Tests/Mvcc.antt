-- ===== src/Tests/Mvcc.antt =====
-- Runs of mvcc/visibility.rs on a small manager.
use z1kv.Common.{
  ℕ, ◌≡◌, ◌≤◌, ◌<◌, ◌↔◌, refl, true, false, not, ◌&&◌, none, some, [], ◌∷◌, length, if◌then◌else◌,
  arith,
}
use z1kv.Common.Map.{get, contains_key, remove}
use z1kv.Common.Bytes.{Bytes, bytes_eq}
use z1kv.Errors.{ok, is_ok}
use z1kv.Mvcc.Types.{
  TxnMeta, VisibilityConfig, VisibilityManager, active, snapshot, repeatable_read, new_with_config,
  insert_bytes,
}
use z1kv.Mvcc.Filter.{manager_is_row_visible, snapshot_is_row_visible, is_visible}
use z1kv.Mvcc.Filter.Laws.{Visible, manager-Visible_iff, manager-eq-snapshot}
use z1kv.Mvcc.Conflict.Laws.{double_loop_conflict}
use z1kv.Mvcc.Prune.{ttl_cutoff}
use z1kv.Mvcc.Manager.{
  begin_txn, record_read, record_write, begin_txn_with_snapshot, take_snapshot, abort_txn,
  finish_commit, commit_txn,
}
use z1kv.Mvcc.Manager.Wf.{Wf, new-Wf, begin_txn-Wf, record_write-Wf, record_read-Wf, commit_txn-Wf}
use z1kv.Mvcc.Manager.Snapshots.{
  delete_committed, take_snapshot-visible, begin_txn_with_snapshot-isolates,
}
use z1kv.Mvcc.Manager.Commits.{commit_txn-decides}
use z1kv.Mvcc.Manager.Shadow.{HasShadow, commit_txn-HasShadow}

program : Unit {0}
unfolding begin_txn record_read record_write begin_txn_with_snapshot take_snapshot commit_txn
    finish_commit double_loop_conflict new_with_config is_visible ttl_cutoff delete_committed
    insert_bytes bytes_eq
program = tt

abbrev config : VisibilityConfig
config = record { max_history_entries = 4; history_ttl_secs = 60 }

abbrev key : Bytes
key = 107 ∷ []

abbrev empty : VisibilityManager
empty = new_with_config config

-- Transaction 1 has begun and written the key.
abbrev writing : VisibilityManager
writing = record_write 1 key (begin_txn 1 empty).0

abbrev committed_one : VisibilityManager
committed_one = (commit_txn 1 5000 1 6000 writing).0

-- Transactions 2 and 3 have begun; 2 wrote the key and 3 read it.
abbrev racing : VisibilityManager
racing = record_read 3 key (begin_txn 3 (record_write 2 key (begin_txn 2 committed_one).0)).0

writing-Wf : Wf writing
writing-Wf = record_write-Wf 1 key (begin_txn 1 empty).0 (begin_txn-Wf 1 empty (new-Wf config))

committed_one-Wf : Wf committed_one
committed_one-Wf = commit_txn-Wf 1 5000 1 6000 writing writing-Wf

racing-Wf : Wf racing
racing-Wf =
    record_read-Wf 3 key (begin_txn 3 (record_write 2 key (begin_txn 2 committed_one).0)).0 (
      begin_txn-Wf 3 (record_write 2 key (begin_txn 2 committed_one).0) (
        record_write-Wf 2 key (begin_txn 2 committed_one).0
          (begin_txn-Wf 2 committed_one committed_one-Wf)))

-- A racing reader makes the commit of the writer fail.
race_fails : is_ok (commit_txn 2 7000 2 7000 racing).1 ≡ false
unfolding program
race_fails = refl

abbrev meta_two : TxnMeta
meta_two = record {
  begin_ts = 2;
  commit_ts = none;
  status = active;
  read_keys = [];
  written_keys = key ∷ [];
}

abbrev meta_one : TxnMeta
meta_one = record {
  begin_ts = 1;
  commit_ts = none;
  status = active;
  read_keys = [];
  written_keys = key ∷ [];
}

two_active : get 2 racing.active_txns ≡ some meta_two
unfolding program
two_active = refl

one_active : get 1 writing.active_txns ≡ some meta_one
unfolding program
one_active = refl

commit_txn-decides_example :
    if double_loop_conflict meta_two (remove 2 racing.active_txns)
    then ((commit_txn 2 7000 2 7000 racing).0 ≡ abort_txn 2 racing)
      × (is_ok (commit_txn 2 7000 2 7000 racing).1 ≡ false)
    else (let vm' = finish_commit 2 7000 2 7000 meta_two racing in
        commit_txn 2 7000 2 7000 racing ≡ (vm', ok (take_snapshot snapshot vm')))
commit_txn-decides_example = commit_txn-decides 2 7000 2 7000 racing meta_two two_active

manager-Visible_iff_example :
    (manager_is_row_visible 10 3 (some 5) (5 ∷ []) ((3, 7) ∷ []) ≡ true)
    ↔ Visible 10 3 (some 5) (5 ∷ []) ((3, 7) ∷ [])
manager-Visible_iff_example = manager-Visible_iff 10 3 (5 ∷ []) ((3, 7) ∷ []) (some 5)

manager-eq-snapshot_example :
    manager_is_row_visible 10 3 (some 5) (5 ∷ []) ((3, 7) ∷ [])
    ≡ snapshot_is_row_visible 10 3 (some 5) (5 ∷ []) ((3, 7) ∷ [])
manager-eq-snapshot_example = manager-eq-snapshot 10 3 (5 ∷ []) ((3, 7) ∷ []) (some 5)

abbrev joined : VisibilityManager
joined = (begin_txn 2 committed_one).0

join :
    begin_txn_with_snapshot 2 repeatable_read committed_one
    ≡ (joined, ok (take_snapshot repeatable_read joined))
unfolding program
join = refl

begin_txn_with_snapshot-isolates_example :
    (contains_key 2 joined.active_txns ≡ true)
    × (joined.committed_history ≡ committed_one.committed_history)
    × ((created : ℕ)
        → is_visible (take_snapshot repeatable_read joined) created none
          ≡ contains_key created committed_one.committed_history)
    × ((created : ℕ)
        → committed_one.committed_txn < created
        → is_visible (take_snapshot repeatable_read joined) created none ≡ false)
begin_txn_with_snapshot-isolates_example =
    begin_txn_with_snapshot-isolates 2 repeatable_read committed_one joined
      (take_snapshot repeatable_read joined) committed_one-Wf join

commit_txn-Wf_example : Wf (commit_txn 2 7000 2 7000 racing).0
commit_txn-Wf_example = commit_txn-Wf 2 7000 2 7000 racing racing-Wf

take_snapshot-visible_example :
    is_visible (take_snapshot snapshot racing) 1 (some 2)
    ≡ (contains_key 1 racing.committed_history && not (delete_committed (some 2) racing))
take_snapshot-visible_example = take_snapshot-visible snapshot racing racing-Wf 1 (some 2)

one_room : length writing.committed_history < writing.config.max_history_entries
unfolding program
one_room = omega arith

one_young : ttl_cutoff 6000 writing ≤ 5000
unfolding program
one_young = omega arith

one_free : double_loop_conflict meta_one (remove 1 writing.active_txns) ≡ false
unfolding program
one_free = refl

writing-HasShadow : HasShadow writing
unfolding program
writing-HasShadow k = refl

commit_txn-HasShadow_example : HasShadow (commit_txn 1 5000 1 6000 writing).0
commit_txn-HasShadow_example =
    commit_txn-HasShadow 1 5000 1 6000 writing writing-Wf writing-HasShadow

empty_idle : empty.active_txns ≡ []
unfolding program
empty_idle = refl
