-- ===== src/Mvcc/Prune/Bound.antt =====
-- Eviction by count: how many entries stay, and which.
pub mod Fifo
use z1kv.Common.{
  ℕ, zero, suc, ◌+◌, ◌-◌, ◌*◌, ◌/◌, ◌≡◌, ◌≤◌, ◌<◌, refl, ◌∙◌, length-take, Bool, true, false, ◌||◌,
  Option, none, some, List, [], ◌∷◌, length, take, drop, leb, ltb, ◌==◌, ==_iff, ==_refl,
  Option-cases, Bool-cases, inl, inr, ◌⊎◌, In, here, there, All, if◌then◌else◌, arith,
}
use z1kv.Common.Map.{
  Map, get, remove, contains_key, Distinct, get-remove, contains_key-get, Distinct-remove,
}
use z1kv.Mvcc.Prune.{items_of, insert_item, sort_items, remove_all, evict_oldest}

abbrev Item : Type 0
Item = ℕ × ℕ

has_key : ℕ → List Item → Bool
has_key k [] = false
has_key k (x ∷ xs) = (x.1 == k) || has_key k xs

NoDupKeys : List Item → Type 0
NoDupKeys [] = Unit
NoDupKeys (x ∷ xs) = (has_key x.1 xs ≡ false) × NoDupKeys xs

has_key-insert_item :
    (k : ℕ) (x : Item) (ys : List Item)
    → has_key k (insert_item x ys) ≡ ((x.1 == k) || has_key k ys)
unfolding has_key insert_item
has_key-insert_item k x [] = refl
has_key-insert_item k x (y ∷ ys) = ground (arith, has_key-insert_item k x ys)

NoDupKeys-insert_item :
    (x : Item) (ys : List Item)
    → has_key x.1 ys ≡ false
    → NoDupKeys ys
    → NoDupKeys (insert_item x ys)
unfolding has_key insert_item NoDupKeys
NoDupKeys-insert_item x [] h d = ground arith
NoDupKeys-insert_item x (y ∷ ys) h d =
    ground (arith, NoDupKeys-insert_item x ys, has_key-insert_item y.1 x ys)

has_key-sort_items : (k : ℕ) (xs : List Item) → has_key k (sort_items xs) ≡ has_key k xs
unfolding has_key sort_items
has_key-sort_items k [] = refl
has_key-sort_items k (x ∷ xs) =
    ground (arith, has_key-sort_items k xs, has_key-insert_item k x (sort_items xs))

NoDupKeys-sort_items : (xs : List Item) → NoDupKeys xs → NoDupKeys (sort_items xs)
unfolding NoDupKeys sort_items
NoDupKeys-sort_items [] d = tt
NoDupKeys-sort_items (x ∷ xs) d =
    NoDupKeys-insert_item x (sort_items xs) (has_key-sort_items x.1 xs ∙ d.0)
      (NoDupKeys-sort_items xs d.1)

has_key-items_of : (k : ℕ) (h : Map (ℕ × ℕ)) → has_key k (items_of h) ≡ contains_key k h
unfolding has_key items_of contains_key
has_key-items_of k [] = refl
has_key-items_of k ((j, (ts, ins)) ∷ h) = ground (arith, has_key-items_of k h)

NoDupKeys-items_of : (h : Map (ℕ × ℕ)) → Distinct h → NoDupKeys (items_of h)
unfolding NoDupKeys items_of
NoDupKeys-items_of [] d = tt
NoDupKeys-items_of ((j, (ts, ins)) ∷ h) d = (has_key-items_of j h ∙ d.0, NoDupKeys-items_of h d.1)

has_key-take : (n k : ℕ) (xs : List Item) → has_key k xs ≡ false → has_key k (take n xs) ≡ false
unfolding has_key
has_key-take zero k xs h = refl
has_key-take (suc n) k [] h = refl
has_key-take (suc n) k (x ∷ xs) h = ground (arith, has_key-take n k xs)

NoDupKeys-take : (n : ℕ) (xs : List Item) → NoDupKeys xs → NoDupKeys (take n xs)
unfolding NoDupKeys
NoDupKeys-take zero xs d = tt
NoDupKeys-take (suc n) [] d = tt
NoDupKeys-take (suc n) (x ∷ xs) d = (has_key-take n x.1 xs d.0, NoDupKeys-take n xs d.1)

length-insert_item : (x : Item) (ys : List Item) → length (insert_item x ys) ≡ suc (length ys)
unfolding insert_item
length-insert_item x [] = refl
length-insert_item x (y ∷ ys) = ground (arith, length-insert_item x ys)

length-sort_items : (h : Map (ℕ × ℕ)) → length (sort_items (items_of h)) ≡ length h
unfolding sort_items items_of
length-sort_items [] = refl
length-sort_items ((j, (ts, ins)) ∷ h) =
    omega (arith, length-insert_item (ins, j) (sort_items (items_of h)), length-sort_items h)

-- Removing a key that is there from a map.
remove_absent : (k : ℕ) (h : Map (ℕ × ℕ)) → contains_key k h ≡ false → remove k h ≡ h
unfolding remove contains_key
remove_absent k [] e = refl
remove_absent k ((j, v) ∷ h) e = ground (arith, remove_absent k h)

length-remove :
    (k : ℕ) (h : Map (ℕ × ℕ))
    → Distinct h
    → contains_key k h ≡ true
    → suc (length (remove k h)) ≡ length h
unfolding remove contains_key
length-remove k [] d e = ground arith
length-remove k ((j, v) ∷ h) d e = ground (arith, length-remove k h, remove_absent j h)

-- Every key of the list is in the map.
AllIn : List Item → Map (ℕ × ℕ) → Type 0
AllIn [] h = Unit
AllIn (x ∷ xs) h = (contains_key x.1 h ≡ true) × AllIn xs h

AllIn-remove :
    (k : ℕ) (xs : List Item) (h : Map (ℕ × ℕ))
    → has_key k xs ≡ false
    → AllIn xs h
    → AllIn xs (remove k h)
unfolding has_key AllIn
AllIn-remove k [] h e a = tt
AllIn-remove k (x ∷ xs) h e a = ground (
  arith,
  AllIn-remove k xs h,
  contains_key-get x.1 h,
  contains_key-get x.1 (remove k h),
  get-remove k x.1 h,
)

length-remove_all :
    (xs : List Item) (h : Map (ℕ × ℕ))
    → Distinct h
    → NoDupKeys xs
    → AllIn xs h
    → length (remove_all xs h) + length xs ≡ length h
unfolding remove_all NoDupKeys AllIn
length-remove_all [] h d n a = omega arith
length-remove_all (x ∷ xs) h d n a = omega (
  arith,
  length-remove x.1 h d a.0,
  length-remove_all xs (remove x.1 h) (Distinct-remove x.1 h d) n.1 (AllIn-remove x.1 xs h n.0 a.1),
)

AllIn-of_has_key :
    (xs : List Item) (h : Map (ℕ × ℕ))
    → ((k : ℕ) → has_key k xs ≡ true → contains_key k h ≡ true)
    → AllIn xs h
unfolding has_key AllIn
AllIn-of_has_key [] h f = tt
AllIn-of_has_key (x ∷ xs) h f =
    (f x.1 (ground (arith, ==_refl x.1)), AllIn-of_has_key xs h (λ k e. f k (ground arith)))

AllIn-take : (n : ℕ) (xs : List Item) (h : Map (ℕ × ℕ)) → AllIn xs h → AllIn (take n xs) h
unfolding AllIn
AllIn-take zero xs h a = tt
AllIn-take (suc n) [] h a = tt
AllIn-take (suc n) (x ∷ xs) h a = (a.0, AllIn-take n xs h a.1)

-- When the history has more entries than its limit, the eviction by count leaves exactly four
-- fifths of the limit.
pub length-evict_oldest :
    (limit : ℕ) (h : Map (ℕ × ℕ))
    → Distinct h
    → limit < length h
    → length (evict_oldest limit h) ≡ limit * 4 / 5
unfolding evict_oldest
length-evict_oldest limit h d over =
    let xs : List Item = sort_items (items_of h) in
    let n : ℕ = length xs - limit * 4 / 5 in
    let a : AllIn xs h =
      AllIn-of_has_key xs h
        (λ k e. ground (arith, has_key-sort_items k (items_of h), has_key-items_of k h)) in
    omega (
      arith,
      length-sort_items h,
      length-take n xs (omega arith),
      length-remove_all (take n xs) h d
          (NoDupKeys-take n xs (NoDupKeys-sort_items (items_of h) (NoDupKeys-items_of h d)))
          (AllIn-take n xs h a),
    )
