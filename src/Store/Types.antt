-- ===== src/Store/Types.antt =====
-- store/types.rs: versions of keys, patches and their statistics.
pub mod Sorting
use Prim.Native.Nat.{Ordering}
use z1kv.Common.{
  ℕ, ◌≡◌, max, min, Bool, true, false, Option, none, some, List, [], ◌∷◌, length, ltb, leb, ◌==◌,
  ◌&&◌, if◌then◌else◌,
}
use z1kv.Common.Map.{Map, get}
use z1kv.Common.Bytes.{Bytes, bytes_cmp, bytes_eq}
use z1kv.Mvcc.Types.{contains}

pub record Z1Key : Type 0 where
  pub cf : ℕ
  pub key : Bytes

abbrev pub key_eq : Z1Key → Z1Key → Bool
key_eq a b = (a.cf == b.cf) && bytes_eq a.key b.key

-- `value` is `none` for a tombstone.
pub record Z1Entry : Type 0 where
  pub key : Z1Key
  pub txn_id : ℕ
  pub value : Option Bytes
  pub ts : ℕ

unfoldable pub tombstone : Z1Key → ℕ → ℕ → Z1Entry
tombstone key txn_id ts = record { key = key; txn_id = txn_id; value = none; ts = ts }

unfoldable pub put_entry : Z1Key → ℕ → Bytes → ℕ → Z1Entry
put_entry key txn_id value ts = record { key = key; txn_id = txn_id; value = some value; ts = ts }

unfoldable pub is_tombstone : Z1Entry → Bool
is_tombstone e = elim e.value [ none ↦ true | some _ ↦ false ]

unfoldable pub is_visible_at_commit : Z1Entry → ℕ → Map ℕ → List ℕ → Bool
unfolding contains get
is_visible_at_commit e snapshot_txn commit_ts_by_txn active_txns =
    if ltb snapshot_txn e.txn_id
    then false
    else if contains e.txn_id active_txns
    then false
    else elim (get e.txn_id commit_ts_by_txn) [
      | none ↦ false
      | some commit_ts ↦ leb commit_ts snapshot_txn
    ]

pub record PatchEntry : Type 0 where
  pub key : Bytes
  pub value : Option Bytes
  pub txn_id : ℕ

-- `a.key.cmp(&b.key).then(a.txn_id.cmp(&b.txn_id))` is not `Greater`.
unfoldable pub entry_le : PatchEntry → PatchEntry → Bool
unfolding bytes_cmp
entry_le a b = elim (bytes_cmp a.key b.key) [
  | Ordering.lt ↦ true
  | Ordering.eq ↦ leb a.txn_id b.txn_id
  | Ordering.gt ↦ false
]

-- `sort_by`, which is stable.
unfoldable pub insert_entry : PatchEntry → List PatchEntry → List PatchEntry
unfolding entry_le
insert_entry x [] = x ∷ []
insert_entry x (y ∷ ys) =
    let rest = insert_entry x ys in if entry_le x y then x ∷ y ∷ ys else y ∷ rest

unfoldable pub sort_entries : List PatchEntry → List PatchEntry
unfolding insert_entry
sort_entries [] = []
sort_entries (x ∷ xs) = insert_entry x (sort_entries xs)

pub data Z1PatchFormatV4 : Type 0 where
  sparse_of : (entries : List PatchEntry) → Z1PatchFormatV4

unfoldable pub sparse : List PatchEntry → Z1PatchFormatV4
unfolding sort_entries
sparse entries = sparse_of (sort_entries entries)

unfoldable pub entry_count : Z1PatchFormatV4 → ℕ
entry_count (sparse_of entries) = length entries

unfoldable pub max_txn_of : List PatchEntry → Option ℕ
max_txn_of [] = none
max_txn_of (e ∷ es) = elim (max_txn_of es) [ none ↦ some e.txn_id | some t ↦ some (max e.txn_id t) ]

unfoldable pub min_txn_of : List PatchEntry → Option ℕ
min_txn_of [] = none
min_txn_of (e ∷ es) = elim (min_txn_of es) [ none ↦ some e.txn_id | some t ↦ some (min e.txn_id t) ]

unfoldable pub max_txn_id : Z1PatchFormatV4 → Option ℕ
unfolding max_txn_of
max_txn_id (sparse_of entries) = max_txn_of entries

unfoldable pub min_txn_id : Z1PatchFormatV4 → Option ℕ
unfolding min_txn_of
min_txn_id (sparse_of entries) = min_txn_of entries

unfoldable pub first_key : List PatchEntry → Option Bytes
first_key [] = none
first_key (e ∷ es) = some e.key

unfoldable pub last_key : List PatchEntry → Option Bytes
last_key [] = none
last_key (e ∷ []) = some e.key
last_key (e ∷ f ∷ es) = last_key (f ∷ es)

unfoldable pub key_bounds : Z1PatchFormatV4 → Option Bytes × Option Bytes
unfolding first_key last_key
key_bounds (sparse_of entries) = (first_key entries, last_key entries)
