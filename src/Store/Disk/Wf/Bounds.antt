-- ===== src/Store/Disk/Wf/Bounds.antt =====
-- The key bounds of a sorted patch.
use z1kv.Common.{
  ◌≡◌, Bool, true, ◌&&◌, List, [], ◌∷◌, In, In-nil, here, there, Bool-cases, inl, inr, arith,
}
use z1kv.Common.Bytes.{Bytes, bytes_cmp_refl, bytes_cmp-eq, bytes_cmp_trans, bytes_le}
use z1kv.Store.Types.{
  PatchEntry, entry_le, insert_entry, sort_entries, first_key, last_key, sparse_of, sparse,
  key_bounds,
}
use z1kv.Store.Types.Sorting.{IsSorted, AllAfter, IsSorted-sort_entries, Every}
use z1kv.Store.Disk.{or_empty, entries_of, range_of}
use z1kv.Store.Disk.Paths.{PatchPath}
use z1kv.Store.Disk.Wf.{in_range}

bytes_le_trans : (a b c : Bytes) → bytes_le a b ≡ true → bytes_le b c ≡ true → bytes_le a c ≡ true
bytes_le_trans a b c h k =
    ground (arith, bytes_cmp_trans a b c, bytes_cmp-eq a b, bytes_cmp-eq b c, bytes_cmp_refl a)

key-le : (a b : PatchEntry) → entry_le a b ≡ true → bytes_le a.key b.key ≡ true
unfolding entry_le
key-le a b h = ground arith

from_first :
    (e : PatchEntry) (es : List PatchEntry) → AllAfter e es → Every (λ pe. bytes_le e.key pe.key) es
from_first e [] s = tt
from_first e (f ∷ fs) s = (key-le e f s.0, from_first e fs s.1)

-- The last key of a sorted list is no smaller than a key that all of it is no smaller than.
last-ge :
    (k : Bytes) (e : PatchEntry) (es : List PatchEntry)
    → IsSorted (e ∷ es)
    → bytes_le k e.key ≡ true
    → bytes_le k (or_empty (last_key (e ∷ es))) ≡ true
unfolding last_key
last-ge k e [] s h = h
last-ge k e (f ∷ fs) s h = last-ge k f fs s.1 (bytes_le_trans k e.key f.key h (key-le e f s.0.0))

to_last :
    (e : PatchEntry) (es : List PatchEntry)
    → IsSorted (e ∷ es)
    → Every (λ pe. bytes_le pe.key (or_empty (last_key (e ∷ es)))) (e ∷ es)
unfolding last_key
to_last e [] s = (ground (arith, bytes_cmp_refl e.key), tt)
to_last e (f ∷ fs) s = (last-ge e.key f fs s.1 (key-le e f s.0.0), to_last f fs s.1)

both :
    (p q : PatchEntry → Bool) (es : List PatchEntry)
    → Every p es
    → Every q es
    → Every (λ e. p e && q e) es
both p q [] a b = tt
both p q (e ∷ es) a b = (ground arith, both p q es a.1 b.1)

sorted-in_range :
    (es : List PatchEntry) (path : PatchPath)
    → IsSorted es
    → Every (in_range (range_of (sparse_of es) path)) es
unfolding key_bounds first_key last_key
sorted-in_range [] path s = tt
sorted-in_range (e ∷ es) path s =
    both (λ pe. bytes_le e.key pe.key) (λ pe. bytes_le pe.key (or_empty (last_key (e ∷ es))))
      (e ∷ es) (ground (arith, bytes_cmp_refl e.key), from_first e es s.0) (to_last e es s)

-- Every key of a patch lies between its bounds.
pub sparse-in_range :
    (es : List PatchEntry) (path : PatchPath)
    → Every (in_range (range_of (sparse es) path)) (entries_of (sparse es))
unfolding sparse
sparse-in_range es path = sorted-in_range (sort_entries es) path (IsSorted-sort_entries es)

In-insert_entry :
    (x : PatchEntry) (ys : List PatchEntry) {e : PatchEntry}
    → In e (x ∷ ys)
    → In e (insert_entry x ys)
unfolding insert_entry
In-insert_entry x [] m = m
In-insert_entry x (y ∷ ys) {e} m = elim (Bool-cases (entry_le x y)) [
  | inl le ↦ rw (le, insert_entry) m
  | inr gt ↦ rw (gt, insert_entry) (behind m (λ k. In-insert_entry x ys k))
]
  where
    behind :
        In e (x ∷ y ∷ ys)
        → (In e (x ∷ ys) → In e (insert_entry x ys))
        → In e (y ∷ insert_entry x ys)
    behind (here same) ih = there (ih (here same))
    behind (there (here same)) ih = here same
    behind (there (there k)) ih = there (ih (there k))

pub In-sort_entries : (es : List PatchEntry) {e : PatchEntry} → In e es → In e (sort_entries es)
unfolding sort_entries
In-sort_entries [] m = absurd (In-nil m)
In-sort_entries (x ∷ xs) (here same) = In-insert_entry x (sort_entries xs) (here same)
In-sort_entries (x ∷ xs) (there m) =
    In-insert_entry x (sort_entries xs) (there (In-sort_entries xs m))
