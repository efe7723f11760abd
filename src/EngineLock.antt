-- ===== src/EngineLock.antt =====
-- engine_lock.rs on Unix: the process lock of a data directory. The calls of the kernel, and what their
-- documentation says of them, are the parameters `Files` and `FlockLaws`. Writing no bytes makes no call.
pub mod Exclusive
use z1kv.Common.{
  ℕ, ◌+◌, ◌≡◌, ◌≢◌, Bool, true, Option, none, some, ◌++◌, [], ◌∷◌, ◌==◌, if◌then◌else◌,
}
use z1kv.Common.Bytes.{Bytes}
use z1kv.Errors.{Result, ok, err, Z1Error, internal}

-- Files by their descriptors: opening one, created where it is missing, `flock` with its return code, and
-- closing.
pub record Files (S : Type 0) : Type 0 where
  pub open_file : Bytes → S → S × Result ℕ
  pub flock : (fd operation : ℕ) → S → S × ℕ
  pub close : (fd : ℕ) → S → S

-- `LOCK_EX | LOCK_NB`
abbrev pub libc_flock_flags : ℕ
libc_flock_flags = 2 + 4

-- Which file a descriptor is open on, and whether it holds the exclusive lock of that file.
pub record FlockLaws {S : Type 0} (k : Files S) : Type 0 where
  pub refers : S → ℕ → Option Bytes
  pub locked : S → ℕ → Bool
  -- `open` returns a descriptor that was not open, and changes no other one.
  pub open_fresh :
      (path : Bytes) (s : S) (fd : ℕ) → (k.open_file path s).1 ≡ ok fd → refers s fd ≡ none
  pub open_refers :
      (path : Bytes) (s : S) (fd : ℕ)
      → (k.open_file path s).1 ≡ ok fd
      → refers (k.open_file path s).0 fd ≡ some path
  pub open_keeps :
      (path : Bytes) (s : S) (g : ℕ)
      → refers s g ≢ none
      → (refers (k.open_file path s).0 g ≡ refers s g)
        × (locked (k.open_file path s).0 g ≡ locked s g)
  -- A lock that is granted is held, and one that another descriptor of the file holds is not granted.
  pub flock_granted :
      (fd : ℕ) (s : S)
      → (k.flock fd libc_flock_flags s).1 ≡ 0
      → locked (k.flock fd libc_flock_flags s).0 fd ≡ true
  pub flock_refused :
      (fd g : ℕ) (path : Bytes) (s : S)
      → fd ≢ g
      → refers s fd ≡ some path
      → refers s g ≡ some path
      → locked s g ≡ true
      → (k.flock fd libc_flock_flags s).1 ≢ 0
  pub flock_refers : (fd g : ℕ) (s : S) → refers (k.flock fd libc_flock_flags s).0 g ≡ refers s g
  pub flock_keeps :
      (fd g : ℕ) (s : S) → fd ≢ g → locked (k.flock fd libc_flock_flags s).0 g ≡ locked s g
  -- Closing a descriptor changes no other one.
  pub close_keeps :
      (fd g : ℕ) (s : S)
      → fd ≢ g
      → (refers (k.close fd s) g ≡ refers s g) × (locked (k.close fd s) g ≡ locked s g)

pub record EngineLock : Type 0 where
  pub file : ℕ
  pub path : Bytes

-- `data_dir.join("ENGINE.lock")`
abbrev pub lock_path : Bytes → Bytes
lock_path data_dir = data_dir ++ (47 ∷ 69 ∷ 78 ∷ 71 ∷ 73 ∷ 78 ∷ 69 ∷ 46 ∷ 108 ∷ 111 ∷ 99 ∷ 107 ∷ [])

module _ {S : Type 0} (k : Files S) where
  -- The file is dropped, and so closed, where its lock is refused.
  unfoldable pub after_flock : (path : Bytes) (fd : ℕ) → S × ℕ → S × Result EngineLock
  after_flock path fd (s, rc) =
      if rc == 0 then (s, ok (record { file = fd; path = path })) else (k.close fd s, err internal)

  unfoldable pub after_open : (path : Bytes) → S × Result ℕ → S × Result EngineLock
  unfolding after_flock
  after_open path (s, err x) = (s, err internal)
  after_open path (s, ok fd) = after_flock path fd (k.flock fd libc_flock_flags s)

  unfoldable pub acquire : (data_dir : Bytes) → S → S × Result EngineLock
  unfolding after_open
  acquire data_dir s = after_open (lock_path data_dir) (k.open_file (lock_path data_dir) s)

  -- `Drop`
  unfoldable pub drop : EngineLock → S → S
  drop lock s = k.close lock.file s
