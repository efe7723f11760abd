-- ===== src/Mvcc/Conflict/Laws.antt =====
-- The key index of `commit_txn` and the double loop over the other transactions.
use z1kv.Common.{ℕ, ◌≡◌, refl, Bool, true, false, ◌||◌, Option, none, some, List, [], ◌∷◌, arith}
use z1kv.Common.Map.{Map}
use z1kv.Common.Bytes.{Bytes, bytes_eq, bytes_eq_iff}
use z1kv.Mvcc.Types.{TxnMeta, contains_bytes}
use z1kv.Mvcc.Conflict.{
  KeyIndex, index_get, index_push, push_keys, build_index, first_of_key, read_conflict,
  write_conflict,
}

-- Does the index hold a transaction under the key?
hit : Bytes → KeyIndex → Bool
hit k m = elim (first_of_key (index_get k m)) [ some id ↦ true | none ↦ false ]

-- The double loop: does any of the other transactions hold the key?
unfoldable pub held : (TxnMeta → List Bytes) → Bytes → Map TxnMeta → Bool
held keys k [] = false
held keys k ((id, meta) ∷ others) = contains_bytes k (keys meta) || held keys k others

hit-index_push :
    (k j : Bytes) (id : ℕ) (m : KeyIndex) → hit j (index_push k id m) ≡ (bytes_eq k j || hit j m)
unfolding hit index_get index_push
hit-index_push k j id [] = ground arith
hit-index_push k j id ((i, []) ∷ m) =
    ground (arith, hit-index_push k j id m, bytes_eq_iff i k, bytes_eq_iff i j, bytes_eq_iff k j)
hit-index_push k j id ((i, x ∷ ids) ∷ m) =
    ground (arith, hit-index_push k j id m, bytes_eq_iff i k, bytes_eq_iff i j, bytes_eq_iff k j)

hit-push_keys :
    (ks : List Bytes) (j : Bytes) (id : ℕ) (m : KeyIndex)
    → hit j (push_keys ks id m) ≡ (contains_bytes j ks || hit j m)
unfolding push_keys contains_bytes
hit-push_keys [] j id m = refl
hit-push_keys (k ∷ ks) j id m =
    ground (arith, hit-push_keys ks j id (index_push k id m), hit-index_push k j id m)

hit-build_index :
    (keys : TxnMeta → List Bytes) (others : Map TxnMeta) (j : Bytes) (m : KeyIndex)
    → hit j (build_index keys others m) ≡ (held keys j others || hit j m)
unfolding build_index held
hit-build_index keys [] j m = refl
hit-build_index keys ((id, meta) ∷ others) j m = ground (
  arith,
  hit-build_index keys others j (push_keys (keys meta) id m),
  hit-push_keys (keys meta) j id m,
)

-- The reference: some key of the list is held by one of the other transactions.
unfoldable pub any_held : (TxnMeta → List Bytes) → List Bytes → Map TxnMeta → Bool
unfolding held
any_held keys [] others = false
any_held keys (k ∷ ks) others = held keys k others || any_held keys ks others

-- The reference for Phases 2 and 3: a read key that another transaction wrote, or a written key
-- that another transaction read or wrote.
unfoldable pub double_loop_conflict : TxnMeta → Map TxnMeta → Bool
unfolding any_held
double_loop_conflict meta others =
    any_held (λ m. m.written_keys) meta.read_keys others
    || any_held (λ m. m.read_keys) meta.written_keys others
    || any_held (λ m. m.written_keys) meta.written_keys others

abbrev pub found : Option ℕ → Bool
found none = false
found (some id) = true

module _ (others : Map TxnMeta) where
  hit-index :
      (keys : TxnMeta → List Bytes) (k : Bytes)
      → hit k (build_index keys others []) ≡ held keys k others
  unfolding hit index_get
  hit-index keys k = ground (arith, hit-build_index keys others k [])

  pub read_conflict-any_held :
      (ks : List Bytes)
      → found (read_conflict ks (build_index (λ m. m.written_keys) others []))
        ≡ any_held (λ m. m.written_keys) ks others
  unfolding read_conflict any_held hit
  read_conflict-any_held [] = refl
  read_conflict-any_held (k ∷ ks) =
      ground (arith, hit-index (λ m. m.written_keys) k, read_conflict-any_held ks)

  pub write_conflict-any_held :
      (ks : List Bytes)
      → found (
          write_conflict ks
            (build_index (λ m. m.read_keys) others [])
            (build_index (λ m. m.written_keys) others []))
        ≡ (any_held (λ m. m.read_keys) ks others || any_held (λ m. m.written_keys) ks others)
  unfolding write_conflict any_held hit
  write_conflict-any_held [] = refl
  write_conflict-any_held (k ∷ ks) = ground (
    arith,
    hit-index (λ m. m.written_keys) k,
    hit-index (λ m. m.read_keys) k,
    write_conflict-any_held ks,
  )
