-- ===== src/Tests/Lock.antt =====
-- Two engines on one directory, with a table of open files as the kernel.
use z1kv.Common.{
  ℕ, suc, ◌≡◌, ◌≢◌, refl, Bool, true, false, Option, none, some, [], ◌∷◌, ltb, ◌==◌, if◌then◌else◌,
  arith, Option-cases, Bool-cases, inl, inr,
}
use z1kv.Common.Map.{get}
use z1kv.Common.Bytes.{Bytes, bytes_eq, bytes_eq_refl, bytes_eq_iff}
use z1kv.Errors.{Result, ok, err, internal}
use z1kv.EngineLock.{Files, FlockLaws, acquire}
use z1kv.EngineLock.Exclusive.{Held, register, initial, later, acquires, acquire-excludes}

record Table : Type 0 where
  next : ℕ
  paths : ℕ → Option Bytes
  owner : Bytes → Option ℕ

abbrev refers : Table → ℕ → Option Bytes
refers t fd = if ltb fd t.next then t.paths fd else none

abbrev is_owner : ℕ → Option ℕ → Bool
is_owner fd none = false
is_owner fd (some g) = g == fd

abbrev owns : Table → ℕ → Option Bytes → Bool
owns t fd none = false
owns t fd (some path) = is_owner fd (t.owner path)

abbrev locked : Table → ℕ → Bool
locked t fd = owns t fd (refers t fd)

abbrev open_file : Bytes → Table → Table × Result ℕ
open_file path t = (
  record t { next = suc t.next; paths = λ fd. if fd == t.next then some path else t.paths fd },
  ok t.next,
)

abbrev lock_free : ℕ → Bytes → Table → Option ℕ → Table × ℕ
lock_free fd path t none =
    (record t { owner = λ q. if bytes_eq q path then some fd else t.owner q }, 0)
lock_free fd path t (some g) = (t, if g == fd then 0 else 1)

abbrev flock_on : ℕ → Table → Option Bytes → Table × ℕ
flock_on fd t none = (t, 9)
flock_on fd t (some path) = lock_free fd path t (t.owner path)

abbrev flock : ℕ → ℕ → Table → Table × ℕ
flock fd operation t = flock_on fd t (refers t fd)

abbrev close : ℕ → Table → Table
close fd t = record t {
  paths = λ g. if g == fd then none else t.paths g;
  owner = λ q. if is_owner fd (t.owner q) then none else t.owner q;
}

abbrev table : Files Table
table = record { open_file = open_file; flock = flock; close = close }

module _ (fd : ℕ) (t : Table) where
  granted_same : (g : ℕ) → ◌≡◌ {A = ℕ} (if g == fd then 0 else 1) 0 → (g == fd) ≡ true
  granted_same g rc = ground (arith, rc)

  -- Another descriptor owns what it owned when `fd` takes a lock that nothing owns.
  taken_keeps :
      (path : Bytes) (g : ℕ)
      → fd ≢ g
      → t.owner path ≡ none
      → (o : Option Bytes)
      → owns (record t { owner = λ q. if bytes_eq q path then some fd else t.owner q }) g o
        ≡ owns t g o
  taken_keeps path g apart unowned none = refl
  taken_keeps path g apart unowned (some q) = elim (Bool-cases (bytes_eq q path)) [
    | inl same ↦ rw (same, (bytes_eq_iff q path).0 same, unowned) (ground (arith, apart))
    | inr other ↦ rw (other) refl
  ]

  closed_keeps :
      (g : ℕ)
      → fd ≢ g
      → (o : Option Bytes)
      → owns (record t { owner = λ q. if is_owner fd (t.owner q) then none else t.owner q }) g o
        ≡ owns t g o
  closed_keeps g apart none = refl
  closed_keeps g apart (some q) = elim (Option-cases (t.owner q)) [
    | inl unowned ↦ rw (unowned) refl
    | inr (h, owned) ↦ rw (owned) (ground (arith, apart))
  ]

  not_fd : (g : ℕ) → fd ≢ g → (g == fd) ≡ false
  not_fd g apart = ground (arith, apart)

  close-refers : (g : ℕ) → fd ≢ g → refers (close fd t) g ≡ refers t g
  close-refers g apart = rw (not_fd g apart) refl

  close-keeps : (g : ℕ) → fd ≢ g → locked (close fd t) g ≡ locked t g
  close-keeps g apart = rw (not_fd g apart) (closed_keeps g apart (refers t g))

  flock_on-refused :
      (g : ℕ) (path : Bytes)
      → fd ≢ g
      → is_owner g (t.owner path) ≡ true
      → (lock_free fd path t (t.owner path)).1 ≢ 0
  flock_on-refused g path apart held = elim (Option-cases (t.owner path)) [
    | inl unowned ↦ absurd (cc (rw (unowned) at held))
    | inr (h, owned) ↦ rw (owned) (another h (rw (owned) at held))
  ]
    where
      another : (h : ℕ) → (h == g) ≡ true → ◌≢◌ {A = ℕ} (if h == fd then 0 else 1) 0
      another h e zero_rc = apart (ground (arith, e, zero_rc))

  flock_on-granted :
      (o : Option Bytes)
      → refers t fd ≡ o
      → (flock_on fd t o).1 ≡ 0
      → locked (flock_on fd t o).0 fd ≡ true
  flock_on-granted none e rc = absurd (ground arith)
  flock_on-granted (some path) e rc = elim (Option-cases (t.owner path)) [
    | inl unowned ↦ rw (unowned) (rw (e) (ground (arith, bytes_eq_refl path)))
    | inr (g, owned) ↦ rw (owned) (rw (e) (rw (owned) (granted_same g (rw (owned) at rc))))
  ]

  flock_on-refers : (o : Option Bytes) (g : ℕ) → refers (flock_on fd t o).0 g ≡ refers t g
  flock_on-refers none g = refl
  flock_on-refers (some path) g = elim (Option-cases (t.owner path)) [
    | inl unowned ↦ rw (unowned) refl
    | inr (h, owned) ↦ rw (owned) refl
  ]

  flock_on-keeps : (o : Option Bytes) (g : ℕ) → fd ≢ g → locked (flock_on fd t o).0 g ≡ locked t g
  flock_on-keeps none g apart = refl
  flock_on-keeps (some path) g apart = elim (Option-cases (t.owner path)) [
    | inl unowned ↦ rw (unowned) (taken_keeps path g apart unowned (refers t g))
    | inr (h, owned) ↦ rw (owned) refl
  ]

table-FlockLaws : FlockLaws table
table-FlockLaws = record {
  refers = refers;
  locked = locked;
  open_fresh = λ path s fd opened. ground (arith, opened);
  open_refers = λ path s fd opened. ground (arith, opened);
  open_keeps = λ path s g there. ground arith;
  flock_granted = λ fd s rc. flock_on-granted fd s (refers s fd) refl rc;
  flock_refused = λ fd g path s apart mine his held.
      rw (mine) (flock_on-refused fd s g path apart (rw (his) at held));
  flock_refers = λ fd g s. flock_on-refers fd s (refers s fd) g;
  flock_keeps = λ fd g s apart. flock_on-keeps fd s (refers s fd) g apart;
  close_keeps = λ fd g s apart. (close-refers fd s g apart, close-keeps fd s g apart);
}

abbrev kernel : Table
kernel = record { next = 0; paths = λ fd. none; owner = λ path. none }

abbrev data_dir : Bytes
data_dir = 100 ∷ []

abbrev first : Held Table
first = register table data_dir [] (acquire table data_dir kernel)

program : Unit {0}
unfolding acquire register get bytes_eq
program = tt

is_held : get 0 first.dirs ≡ some data_dir
unfolding program
is_held = refl

acquire-excludes_example :
    ((acquire table data_dir first.kernel).1 ≡ err internal)
    × (table-FlockLaws.locked first.kernel 0 ≡ true)
    × (table-FlockLaws.locked (acquire table data_dir first.kernel).0 0 ≡ true)
acquire-excludes_example =
    acquire-excludes table table-FlockLaws kernel first (later initial (acquires data_dir)) 0
      data_dir is_held
