-- ===== src/Store/Types/Sorting.antt =====
-- The order of a patch, and what sorting by it keeps.
use z1kv.Common.{
  ℕ, ◌≡◌, ◌∙◌, refl, Bool, true, false, ◌&&◌, Option, none, some, List, [], ◌∷◌, length, ltb, All,
  if◌then◌else◌, arith, suc,
}
use z1kv.Common.Bytes.{
  Bytes, bytes_eq, bytes_eq_iff, bytes_cmp_refl, bytes_cmp-eq, bytes_cmp-gt, bytes_cmp_trans,
}
use z1kv.Store.Types.{PatchEntry, entry_le, insert_entry, sort_entries}

-- The two facts about keys that the order of entries rests on.
entry_le_trans :
    (a b c : PatchEntry) → entry_le a b ≡ true → entry_le b c ≡ true → entry_le a c ≡ true
unfolding entry_le
entry_le_trans a b c h k = ground (
  arith,
  bytes_cmp-eq a.key b.key,
  bytes_cmp-eq b.key c.key,
  bytes_cmp_trans a.key b.key c.key,
  bytes_cmp_refl a.key,
)

-- What is not in order is in order the other way round, strictly for one key.
pub entry_le-total : (a b : PatchEntry) → entry_le a b ≡ false → entry_le b a ≡ true
unfolding entry_le
entry_le-total a b h =
    ground (arith, bytes_cmp-gt a.key b.key, bytes_cmp-eq a.key b.key, bytes_cmp_refl b.key)

abbrev pub AllAfter : PatchEntry → List PatchEntry → Type 0
AllAfter e [] = Unit
AllAfter e (f ∷ fs) = (entry_le e f ≡ true) × AllAfter e fs

abbrev pub IsSorted : List PatchEntry → Type 0
IsSorted [] = Unit
IsSorted (e ∷ es) = AllAfter e es × IsSorted es

AllAfter-insert_entry :
    (a x : PatchEntry) (ys : List PatchEntry)
    → entry_le a x ≡ true
    → AllAfter a ys
    → AllAfter a (insert_entry x ys)
unfolding insert_entry
AllAfter-insert_entry a x [] h s = ground arith
AllAfter-insert_entry a x (y ∷ ys) h s = ground (arith, AllAfter-insert_entry a x ys)

AllAfter-trans :
    (a b : PatchEntry) (xs : List PatchEntry) → entry_le a b ≡ true → AllAfter b xs → AllAfter a xs
AllAfter-trans a b [] h s = tt
AllAfter-trans a b (x ∷ xs) h s = (entry_le_trans a b x h s.0, AllAfter-trans a b xs h s.1)

IsSorted-insert_entry :
    (x : PatchEntry) (ys : List PatchEntry) → IsSorted ys → IsSorted (insert_entry x ys)
unfolding insert_entry
IsSorted-insert_entry x [] s = ground arith
IsSorted-insert_entry x (y ∷ ys) s = ground (
  arith,
  IsSorted-insert_entry x ys,
  AllAfter-insert_entry y x ys,
  AllAfter-trans x y ys,
  entry_le-total x y,
)

pub IsSorted-sort_entries : (xs : List PatchEntry) → IsSorted (sort_entries xs)
unfolding sort_entries
IsSorted-sort_entries [] = tt
IsSorted-sort_entries (x ∷ xs) =
    IsSorted-insert_entry x (sort_entries xs) (IsSorted-sort_entries xs)

length-insert_entry :
    (x : PatchEntry) (ys : List PatchEntry) → length (insert_entry x ys) ≡ suc (length ys)
unfolding insert_entry
length-insert_entry x [] = refl
length-insert_entry x (y ∷ ys) = ground (arith, length-insert_entry x ys)

pub length-sort_entries : (xs : List PatchEntry) → length (sort_entries xs) ≡ length xs
unfolding sort_entries
length-sort_entries [] = refl
length-sort_entries (x ∷ xs) =
    omega (arith, length-sort_entries xs, length-insert_entry x (sort_entries xs))

-- A predicate of entries, as a test, over a list and over the sorted list.
abbrev pub Every : (PatchEntry → Bool) → List PatchEntry → Type 0
Every p = All (λ e. p e ≡ true)

Every-insert_entry :
    (p : PatchEntry → Bool) (x : PatchEntry) (ys : List PatchEntry)
    → p x ≡ true
    → Every p ys
    → Every p (insert_entry x ys)
unfolding insert_entry
Every-insert_entry p x [] h a = (h, tt)
Every-insert_entry p x (y ∷ ys) h a = ground (arith, Every-insert_entry p x ys)

pub Every-sort_entries :
    (p : PatchEntry → Bool) (xs : List PatchEntry) → Every p xs → Every p (sort_entries xs)
unfolding sort_entries
Every-sort_entries p [] a = tt
Every-sort_entries p (x ∷ xs) a =
    Every-insert_entry p x (sort_entries xs) a.0 (Every-sort_entries p xs a.1)

-- `filter(p).max_by_key(|e| e.txn_id)`: the last one of the largest `txn_id`.
unfoldable pub newest : (PatchEntry → Bool) → List PatchEntry → Option PatchEntry
newest p [] = none
newest p (e ∷ es) =
    let rest = newest p es in
    if p e
    then (elim rest [ none ↦ some e | some b ↦ if ltb b.txn_id e.txn_id then some e else some b ])
    else rest

-- The versions of one key that a reader sees.
unfoldable pub of_key : Bytes → (ℕ → Bool) → PatchEntry → Bool
of_key key vis e = bytes_eq e.key key && vis e.txn_id

module _ (key : Bytes) (vis : ℕ → Bool) where
  newest-insert_entry :
      (x : PatchEntry) (ys : List PatchEntry)
      → newest (of_key key vis) (insert_entry x ys) ≡ newest (of_key key vis) (x ∷ ys)
  unfolding newest of_key insert_entry entry_le
  newest-insert_entry x [] = refl
  newest-insert_entry x (y ∷ ys) = ground (
    arith,
    newest-insert_entry x ys,
    bytes_eq_iff x.key key,
    bytes_eq_iff y.key key,
    bytes_cmp_refl key,
  )

  -- Sorting does not change which version of a key is the newest.
  pub newest-sort_entries :
      (xs : List PatchEntry)
      → newest (of_key key vis) (sort_entries xs) ≡ newest (of_key key vis) xs
  unfolding newest sort_entries
  newest-sort_entries [] = refl
  newest-sort_entries (x ∷ xs) =
      newest-insert_entry x (sort_entries xs) ∙ ground (arith, newest-sort_entries xs)
