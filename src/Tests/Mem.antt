-- ===== src/Tests/Mem.antt =====
-- Runs of the in-memory store.
use z1kv.Common.{ℕ, ◌≡◌, ◌≤◌, refl, true, false, Option, none, some, [], ◌∷◌, In, here}
use z1kv.Common.Map.{Map}
use z1kv.Common.Bytes.{bytes_eq}
use z1kv.Errors.{err, IoKind, io, other}
use z1kv.Store.Types.{Z1Key, Z1Entry}
use z1kv.Store.Mem.{
  MemStore, immediate, sources, is_candidate, get_visible, swap_and_drain, put, new_store,
}
use z1kv.Store.Mem.Laws.{get_visible-newest, put-fails}
use z1kv.Wal.Writer.Appends.{nothing_torn}
use z1kv.Tests.Wal.{codec, config, writer}

program : Unit {0}
unfolding is_candidate get_visible swap_and_drain put new_store bytes_eq
program = tt

abbrev pub key : Z1Key
key = record { cf = 0; key = 107 ∷ [] }

abbrev pub version : ℕ → Z1Entry
version txn_id = record { key = key; txn_id = txn_id; value = none; ts = 0 }

abbrev pub store : MemStore
store = record {
  hot = version 2 ∷ version 5 ∷ [];
  cold = [];
  snapshot = [];
  hot_size_bytes = 70;
  flush_threshold = 1000;
  sync_level = immediate;
  wal = some writer;
  batch_pending = 0;
}

abbrev commits : Map ℕ
commits = (2, 2) ∷ (5, 6) ∷ []

sees_two : is_candidate key 9 commits [] (version 2) ≡ true
unfolding program
sees_two = refl

get_visible-newest_example :
    (b : Z1Entry) × (get_visible key 9 commits [] store ≡ some b)
    × In b (sources store)
    × (is_candidate key 9 commits [] b ≡ true)
    × (2 ≤ b.txn_id)
get_visible-newest_example =
    get_visible-newest key 9 commits [] store (version 2) (here refl) sees_two

-- Every call of the file system fails.
abbrev broken : ℕ → Option IoKind
broken _ = some other

abbrev after_put : MemStore
after_put = record store {
  wal = some (record writer { files = writer.files; calls = 1; unsynced = true });
}

put_fails :
    put broken nothing_torn codec config false (version 8) store ≡ (after_put, err (io other))
unfolding program
put_fails = refl

put-fails_example : (after_put.hot ≡ store.hot) × (after_put.hot_size_bytes ≡ store.hot_size_bytes)
put-fails_example =
    put-fails broken nothing_torn codec config false (version 8) store after_put (io other)
      put_fails
