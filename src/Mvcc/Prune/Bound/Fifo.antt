-- ===== src/Mvcc/Prune/Bound/Fifo.antt =====
-- Eviction by count: the order of the insertion times.
use z1kv.Common.{
  ℕ, zero, suc, ◌-◌, ◌*◌, ◌/◌, ◌≡◌, ◌≤◌, refl, subst, true, none, some, List, [], ◌∷◌, length, take,
  drop, leb, ◌==◌, ==_iff, Bool-cases, inl, inr, ◌⊎◌, In, In-nil, here, there, if◌then◌else◌, arith,
}
use z1kv.Common.Map.{Map, get, remove, Distinct, get-remove, contains_key-get}
use z1kv.Mvcc.Prune.{items_of, insert_item, sort_items, remove_all, evict_oldest}
use z1kv.Mvcc.Prune.Bound.{Item, has_key}

get-remove_all :
    (xs : List Item) (k : ℕ) (h : Map (ℕ × ℕ))
    → get k (remove_all xs h) ≡ (if has_key k xs then none else get k h)
unfolding remove_all has_key
get-remove_all [] k h = refl
get-remove_all (x ∷ xs) k h = ground (arith, get-remove_all xs k (remove x.1 h), get-remove x.1 k h)

AllFrom : ℕ → List Item → Type 0
AllFrom a [] = Unit
AllFrom a (x ∷ xs) = (a ≤ x.0) × AllFrom a xs

IsSorted : List Item → Type 0
IsSorted [] = Unit
IsSorted (x ∷ xs) = AllFrom x.0 xs × IsSorted xs

AllFrom-insert_item :
    (a : ℕ) (x : Item) (ys : List Item) → a ≤ x.0 → AllFrom a ys → AllFrom a (insert_item x ys)
unfolding AllFrom insert_item
AllFrom-insert_item a x [] h s = ground arith
AllFrom-insert_item a x (y ∷ ys) h s = ground (arith, AllFrom-insert_item a x ys)

AllFrom-weaken : (a b : ℕ) (xs : List Item) → a ≤ b → AllFrom b xs → AllFrom a xs
unfolding AllFrom
AllFrom-weaken a b [] h s = tt
AllFrom-weaken a b (x ∷ xs) h s = (omega arith, AllFrom-weaken a b xs h s.1)

IsSorted-insert_item : (x : Item) (ys : List Item) → IsSorted ys → IsSorted (insert_item x ys)
unfolding IsSorted AllFrom insert_item
IsSorted-insert_item x [] s = ground arith
IsSorted-insert_item x (y ∷ ys) s =
    ground
      (arith, IsSorted-insert_item x ys, AllFrom-insert_item y.0 x ys, AllFrom-weaken x.0 y.0 ys)

IsSorted-sort_items : (xs : List Item) → IsSorted (sort_items xs)
unfolding IsSorted sort_items
IsSorted-sort_items [] = tt
IsSorted-sort_items (x ∷ xs) = IsSorted-insert_item x (sort_items xs) (IsSorted-sort_items xs)

In-AllFrom : (a : ℕ) {x : Item} {xs : List Item} → AllFrom a xs → In x xs → a ≤ x.0
unfolding AllFrom
In-AllFrom a s (here e) = subst (λ (y : Item). a ≤ y.0) e s.0
In-AllFrom a s (there m) = In-AllFrom a s.1 m

In-drop : (n : ℕ) (xs : List Item) {x : Item} → In x (drop n xs) → In x xs
In-drop zero xs m = m
In-drop (suc n) [] m = m
In-drop (suc n) (y ∷ xs) m = there (In-drop n xs m)

-- What stands before a cut of a sorted list is at most what stands after it.
IsSorted-cut :
    (n : ℕ) (xs : List Item) (x y : Item)
    → IsSorted xs
    → In x (take n xs)
    → In y (drop n xs)
    → x.0 ≤ y.0
unfolding IsSorted
IsSorted-cut zero xs x y s p q = absurd (In-nil p)
IsSorted-cut (suc n) [] x y s p q = absurd (In-nil p)
IsSorted-cut (suc n) (z ∷ xs) x y s (here e) q =
    subst (λ (u : Item). u.0 ≤ y.0) e (In-AllFrom z.0 s.0 (In-drop n xs q))
IsSorted-cut (suc n) (z ∷ xs) x y s (there p) q = IsSorted-cut n xs x y s.1 p q

-- Where an element of a list stands with respect to a cut.
In-cut : (n : ℕ) (xs : List Item) {x : Item} → In x xs → In x (take n xs) ⊎ In x (drop n xs)
In-cut zero xs m = inr m
In-cut (suc n) [] m = inl m
In-cut (suc n) (y ∷ xs) (here e) = inl (here e)
In-cut (suc n) (y ∷ xs) (there m) = elim (In-cut n xs m) [ inl p ↦ inl (there p) | inr q ↦ inr q ]

In-take : (n : ℕ) (xs : List Item) {x : Item} → In x (take n xs) → In x xs
In-take zero xs m = absurd (In-nil m)
In-take (suc n) [] m = absurd (In-nil m)
In-take (suc n) (y ∷ xs) (here e) = here e
In-take (suc n) (y ∷ xs) (there m) = there (In-take n xs m)

In-of_has_key : (k : ℕ) (xs : List Item) → has_key k xs ≡ true → (x : Item) × In x xs × (x.1 ≡ k)
unfolding has_key
In-of_has_key k [] e = cc
In-of_has_key k (x ∷ xs) e = elim (Bool-cases (x.1 == k)) [
  | inl same ↦ (x, here refl, (==_iff x.1 k).0 same)
  | inr ne ↦ let (y, m, same) = In-of_has_key k xs (ground arith) in (y, there m, same)
]

has_key-of_In : (k : ℕ) (xs : List Item) {x : Item} → In x xs → x.1 ≡ k → has_key k xs ≡ true
unfolding has_key
has_key-of_In k [] m same = absurd (In-nil m)
has_key-of_In k (y ∷ xs) (here e) same = rw (e, same) (ground arith)
has_key-of_In k (y ∷ xs) (there m) same = ground (arith, has_key-of_In k xs m same)

below_head : {x y z : Item} {ys : List Item} → In y (x ∷ ys) → In y (x ∷ z ∷ ys)
below_head (here e) = here e
below_head (there k) = there (there k)

under_head :
    {x y z : Item} {l ys : List Item} → (In y l → In y (x ∷ ys)) → In y (z ∷ l) → In y (x ∷ z ∷ ys)
under_head f (here e) = there (here e)
under_head f (there m) = below_head (f m)

over_head :
    {x y z : Item} {l ys : List Item} → (In y (x ∷ ys) → In y l) → In y (x ∷ z ∷ ys) → In y (z ∷ l)
over_head f (here e) = there (f (here e))
over_head f (there (here e)) = here e
over_head f (there (there m)) = there (f (there m))

In-insert_item : (x : Item) (ys : List Item) {y : Item} → In y (insert_item x ys) → In y (x ∷ ys)
unfolding insert_item
In-insert_item x [] m = m
In-insert_item x (z ∷ ys) m = elim (Bool-cases (leb x.0 z.0)) [
  | inl le ↦ rw (le, insert_item) at m
  | inr gt ↦ under_head (In-insert_item x ys) (rw (gt, insert_item) at m)
]

In-insert_item_of : (x : Item) (ys : List Item) {y : Item} → In y (x ∷ ys) → In y (insert_item x ys)
unfolding insert_item
In-insert_item_of x [] m = m
In-insert_item_of x (z ∷ ys) m = elim (Bool-cases (leb x.0 z.0)) [
  | inl le ↦ rw (le, insert_item) m
  | inr gt ↦ rw (gt, insert_item) (over_head (In-insert_item_of x ys) m)
]

under_same : {x y : Item} {l ys : List Item} → (In y l → In y ys) → In y (x ∷ l) → In y (x ∷ ys)
under_same f (here e) = here e
under_same f (there m) = there (f m)

In-sort_items : (xs : List Item) {y : Item} → In y (sort_items xs) → In y xs
unfolding sort_items
In-sort_items [] m = m
In-sort_items (x ∷ xs) m = under_same (In-sort_items xs) (In-insert_item x (sort_items xs) m)

sort_items-In : (xs : List Item) {y : Item} → In y xs → In y (sort_items xs)
unfolding sort_items
sort_items-In [] m = m
sort_items-In (x ∷ xs) m = In-insert_item_of x (sort_items xs) (under_same (sort_items-In xs) m)

-- An item of a map, and the entry that it stands for.
In-items_of :
    (h : Map (ℕ × ℕ)) (x : Item)
    → Distinct h
    → In x (items_of h)
    → (ts : ℕ) × (get x.1 h ≡ some (ts, x.0))
unfolding items_of get
In-items_of [] x d m = absurd (In-nil m)
In-items_of ((j, (ts, ins)) ∷ h) x d (here e) = (ts, ground arith)
In-items_of ((j, (ts, ins)) ∷ h) x d (there m) =
    let (t, found) = In-items_of h x d.1 m in (t, ground (arith, contains_key-get j h))

items_of-In : (h : Map (ℕ × ℕ)) (k : ℕ) (v : ℕ × ℕ) → get k h ≡ some v → In (v.1, k) (items_of h)
unfolding items_of get
items_of-In [] k v e = cc
items_of-In ((j, w) ∷ h) k v e = elim (Bool-cases (j == k)) [
  | inl same ↦ here (ground arith)
  | inr ne ↦ there (items_of-In h k v (ground arith))
]

-- The eviction by count goes first in, first out by the insertion time: an entry that it evicts was
-- inserted no later than any entry that it keeps, whatever their commit timestamps are.
pub evict_oldest-Fifo :
    (limit : ℕ) (h : Map (ℕ × ℕ)) (k j : ℕ) (v u : ℕ × ℕ)
    → Distinct h
    → get k h ≡ some v
    → get k (evict_oldest limit h) ≡ none
    → get j (evict_oldest limit h) ≡ some u
    → v.1 ≤ u.1
unfolding evict_oldest
evict_oldest-Fifo limit h k j v u d before evicted kept =
    let xs : List Item = sort_items (items_of h) in
    let n : ℕ = length xs - limit * 4 / 5 in
    let gone : has_key k (take n xs) ≡ true = ground (arith, get-remove_all (take n xs) k h) in
    let (x, at, same) = In-of_has_key k (take n xs) gone in
    let (ts, found) = In-items_of h x d (In-sort_items (items_of h) (In-take n xs at)) in
    let there_j : get j h ≡ some u = ground (arith, get-remove_all (take n xs) j h) in
    let time : x.0 ≡ v.1 = cc (found, same, before) in
    elim (In-cut n xs (sort_items-In (items_of h) (items_of-In h j u there_j))) [
      | inl early ↦
          absurd
            (ground (arith, has_key-of_In j (take n xs) early refl, get-remove_all (take n xs) j h))
      | inr late ↦
          rw (← time) (IsSorted-cut n xs x (u.1, j) (IsSorted-sort_items (items_of h)) at late)
    ]
