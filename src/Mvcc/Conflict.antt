-- ===== src/Mvcc/Conflict.antt =====
-- The conflict detection of `VisibilityManager::commit_txn`: the key index over the other active
-- transactions, and the two scans of it.
pub mod Laws
use z1kv.Common.{ℕ, Bool, true, false, Option, none, some, List, [], ◌∷◌, ◌++◌, if◌then◌else◌}
use z1kv.Common.Map.{Map}
use z1kv.Common.Bytes.{Bytes, bytes_eq}
use z1kv.Mvcc.Types.{TxnMeta}

-- `HashMap<&Vec<u8>, Vec<TxnId>>`
abbrev pub KeyIndex : Type 0
KeyIndex = List (Bytes × List ℕ)

unfoldable pub index_get : Bytes → KeyIndex → Option (List ℕ)
index_get k [] = none
index_get k ((j, ids) ∷ m) = if bytes_eq j k then some ids else index_get k m

-- `entry(key).or_default().push(id)`
unfoldable pub index_push : Bytes → ℕ → KeyIndex → KeyIndex
index_push k id [] = (k, id ∷ []) ∷ []
index_push k id ((j, ids) ∷ m) =
    let rest = index_push k id m in
    if bytes_eq j k then (j, ids ++ id ∷ []) ∷ m else (j, ids) ∷ rest

unfoldable pub push_keys : List Bytes → ℕ → KeyIndex → KeyIndex
unfolding index_push
push_keys [] id m = m
push_keys (k ∷ ks) id m = push_keys ks id (index_push k id m)

-- Phase 1, for one of the two indices: `keys` selects the written or the read keys.
unfoldable pub build_index : (TxnMeta → List Bytes) → Map TxnMeta → KeyIndex → KeyIndex
unfolding push_keys
build_index keys [] m = m
build_index keys ((id, meta) ∷ others) m = build_index keys others (push_keys (keys meta) id m)

-- The first transaction in the index under a key, if there is one.
abbrev pub first_of_key : Option (List ℕ) → Option ℕ
first_of_key none = none
first_of_key (some []) = none
first_of_key (some (id ∷ ids)) = some id

-- Phase 2: the first read key that another transaction wrote.
unfoldable pub read_conflict : List Bytes → KeyIndex → Option ℕ
unfolding index_get
read_conflict [] writers = none
read_conflict (k ∷ ks) writers =
    let rest = read_conflict ks writers in
    elim (first_of_key (index_get k writers)) [ some id ↦ some id | none ↦ rest ]

-- Phase 3: the first written key that another transaction read or wrote.
unfoldable pub write_conflict : List Bytes → KeyIndex → KeyIndex → Option ℕ
unfolding index_get
write_conflict [] readers writers = none
write_conflict (k ∷ ks) readers writers =
    let rest = write_conflict ks readers writers in
    elim (first_of_key (index_get k readers)) [
      | some id ↦ some id
      | none ↦ elim (first_of_key (index_get k writers)) [ some id ↦ some id | none ↦ rest ]
    ]
