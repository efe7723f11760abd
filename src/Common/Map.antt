-- ===== src/Common/Map.antt =====
-- `HashMap<u64, V>` as an association list. The order of the list stands for the map's iteration
-- order, which the standard library leaves open: statements quantify over every list.
use Prim.Native.Nat.{ℕ, suc, ◌≤◌}
use mathlib.Core.Path.{◌≡◌, refl}
use mathlib.Core.Bool.{Bool, true, false}
use mathlib.Core.Option.{Option, none, some}
use mathlib.Core.List.{List, [], ◌∷◌}
use native.Mathlib.Omega.{arith}
use z1kv.Common.Tests.{◌==◌, if◌then◌else◌}
use z1kv.Common.Lists.{length}

abbrev pub Map {ℓ} : Type ℓ → Type ℓ
Map V = List (ℕ × V)

module _ {ℓ} {V : Type ℓ} where
  unfoldable pub get : ℕ → Map V → Option V
  get k [] = none
  get k ((j, v) ∷ m) = if j == k then some v else get k m

  unfoldable pub contains_key : ℕ → Map V → Bool
  contains_key k [] = false
  contains_key k ((j, v) ∷ m) = if j == k then true else contains_key k m

  unfoldable pub insert : ℕ → V → Map V → Map V
  insert k v [] = (k, v) ∷ []
  insert k v ((j, w) ∷ m) = let rest = insert k v m in if j == k then (k, v) ∷ m else (j, w) ∷ rest

  unfoldable pub remove : ℕ → Map V → Map V
  remove k [] = []
  remove k ((j, v) ∷ m) = let rest = remove k m in if j == k then rest else (j, v) ∷ rest

  unfoldable pub keep : (ℕ → V → Bool) → Map V → Map V
  keep p [] = []
  keep p ((j, v) ∷ m) = let rest = keep p m in if p j v then (j, v) ∷ rest else rest

  -- No key stands twice, which a `HashMap` guarantees.
  abbrev pub Distinct : Map V → Type 0
  Distinct [] = Unit
  Distinct ((j, v) ∷ m) = (contains_key j m ≡ false) × Distinct m

  pub contains_key-get :
      (k : ℕ) (m : Map V) → contains_key k m ≡ (elim (get k m) [ none ↦ false | some _ ↦ true ])
  unfolding contains_key get
  contains_key-get k [] = refl
  contains_key-get k ((j, v) ∷ m) = ground (arith, contains_key-get k m)

  pub get-insert :
      (k j : ℕ) (v : V) (m : Map V) → get j (insert k v m) ≡ (if k == j then some v else get j m)
  unfolding get insert
  get-insert k j v [] = refl
  get-insert k j v ((i, w) ∷ m) = ground (arith, get-insert k j v m)

  pub get-remove : (k j : ℕ) (m : Map V) → get j (remove k m) ≡ (if k == j then none else get j m)
  unfolding get remove
  get-remove k j [] = ground arith
  get-remove k j ((i, w) ∷ m) = ground (arith, get-remove k j m)

  -- A `retain` that looks at the key alone.
  pub get-keep_key :
      (p : ℕ → Bool) (j : ℕ) (m : Map V)
      → get j (keep (λ k _. p k) m) ≡ (if p j then get j m else none)
  unfolding get keep
  get-keep_key p j [] = ground arith
  get-keep_key p j ((i, w) ∷ m) = ground (arith, get-keep_key p j m)

  -- A `retain` that looks at the value too, on a map.
  pub get-keep :
      (p : ℕ → V → Bool) (j : ℕ) (m : Map V)
      → Distinct m
      → get j (keep p m)
        ≡ (elim (get j m) [ none ↦ none | some v ↦ if p j v then some v else none ])
  unfolding get keep contains_key
  get-keep p j [] d = refl
  get-keep p j ((i, w) ∷ m) d =
      ground (arith, get-keep p j m, contains_key-get j m, contains_key-get i m)

  pub Distinct-insert : (k : ℕ) (v : V) (m : Map V) → Distinct m → Distinct (insert k v m)
  unfolding insert contains_key
  Distinct-insert k v [] d = ground arith
  Distinct-insert k v ((i, w) ∷ m) d = ground (
    arith,
    Distinct-insert k v m,
    contains_key-get i (insert k v m),
    contains_key-get i m,
    get-insert k i v m,
  )

  pub Distinct-remove : (k : ℕ) (m : Map V) → Distinct m → Distinct (remove k m)
  unfolding remove contains_key
  Distinct-remove k [] d = tt
  Distinct-remove k ((i, w) ∷ m) d = ground (
    arith,
    Distinct-remove k m,
    contains_key-get i (remove k m),
    contains_key-get i m,
    get-remove k i m,
  )

  contains_key-keep :
      (p : ℕ → V → Bool) (j : ℕ) (m : Map V)
      → contains_key j m ≡ false
      → contains_key j (keep p m) ≡ false
  unfolding contains_key keep
  contains_key-keep p j [] d = refl
  contains_key-keep p j ((i, w) ∷ m) d = ground (arith, contains_key-keep p j m)

  pub Distinct-keep : (p : ℕ → V → Bool) (m : Map V) → Distinct m → Distinct (keep p m)
  unfolding keep
  Distinct-keep p [] d = tt
  Distinct-keep p ((i, w) ∷ m) d = ground (arith, Distinct-keep p m, contains_key-keep p i m)

  pub length-remove-le : (k : ℕ) (m : Map V) → length (remove k m) ≤ length m
  unfolding remove
  length-remove-le k [] = omega arith
  length-remove-le k ((i, w) ∷ m) = ground (arith, length-remove-le k m)

  pub length-keep-le : (p : ℕ → V → Bool) (m : Map V) → length (keep p m) ≤ length m
  unfolding keep
  length-keep-le p [] = omega arith
  length-keep-le p ((i, w) ∷ m) = ground (arith, length-keep-le p m)

  pub length-insert-le : (k : ℕ) (v : V) (m : Map V) → length (insert k v m) ≤ suc (length m)
  unfolding insert
  length-insert-le k v [] = omega arith
  length-insert-le k v ((i, w) ∷ m) = ground (arith, length-insert-le k v m)
