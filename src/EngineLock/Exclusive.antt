-- ===== src/EngineLock/Exclusive.antt =====
-- Engines that acquire and drop the locks of their data directories, one after the other.
use z1kv.Common.{
  ℕ, ◌≡◌, ◌≢◌, ◌∙◌, refl, sym, ap, subst, Bool, true, false, none, some, [], ◌==◌, ==_iff,
  if◌then◌else◌, Bool-cases, inl, inr, arith,
}
use z1kv.Common.Map.{Map, get, insert, remove, get-insert, get-remove}
use z1kv.Common.Bytes.{Bytes}
use z1kv.Errors.{Result, ok, err, internal}
use z1kv.EngineLock.{
  Files, FlockLaws, libc_flock_flags, EngineLock, lock_path, after_flock, after_open, acquire, drop,
}

-- The kernel, and the data directory of each lock that is held, by the lock's descriptor.
pub record Held (S : Type 0) : Type 0 where
  pub kernel : S
  pub dirs : Map Bytes

module _ {S : Type 0} (k : Files S) where
  unfoldable pub register : Bytes → Map Bytes → S × Result EngineLock → Held S
  unfolding insert
  register dir dirs (s, ok lock) = record { kernel = s; dirs = insert lock.file dir dirs }
  register dir dirs (s, err x) = record { kernel = s; dirs = dirs }

  pub data Step (h : Held S) : Held S → Type 0 where
    acquires : (dir : Bytes) → Step h (register dir h.dirs (acquire k dir h.kernel))
    drops :
        (lock : EngineLock)
        → get lock.file h.dirs ≢ none
        → Step h (record { kernel = drop k lock h.kernel; dirs = remove lock.file h.dirs })

  pub data Reach (h : Held S) : Held S → Type 0 where
    initial : Reach h h
    later : {i j : Held S} → Reach h i → Step i j → Reach h j

  module _ (l : FlockLaws k) where
    -- Every lock that is held is one in the kernel.
    abbrev Owned : S → Map Bytes → Type 0
    Owned s dirs =
        (fd : ℕ) (dir : Bytes)
        → get fd dirs ≡ some dir
        → (l.refers s fd ≡ some (lock_path dir)) × (l.locked s fd ≡ true)

    open_Owned :
        (path : Bytes) (s : S) (dirs : Map Bytes) → Owned s dirs → Owned (k.open_file path s).0 dirs
    open_Owned path s dirs o fd dir found =
        let u = o fd dir found in
        let v = l.open_keeps path s fd (λ gone. absurd (cc (gone, u.0))) in (v.0 ∙ u.0, v.1 ∙ u.1)

    -- The descriptor of a lock that is held is none that an `open` returns.
    apart :
        (path : Bytes) (s : S) (dirs : Map Bytes)
        → Owned s dirs
        → (fd : ℕ) → (k.open_file path s).1 ≡ ok fd
        → (g : ℕ) (dir : Bytes) → get g dirs ≡ some dir
        → fd ≢ g
    apart path s dirs o fd opened g dir found same =
        let fresh : l.refers s fd ≡ none = l.open_fresh path s fd opened in
        let mine : l.refers s g ≡ some (lock_path dir) = (o g dir found).0 in
        absurd (cc (fresh, mine, same))

    module _ (dir : Bytes) (h : Held S) (o : Owned h.kernel h.dirs) where
      abbrev opened : S × Result ℕ
      opened = k.open_file (lock_path dir) h.kernel

      refused :
          (p : S × Result ℕ)
          → opened ≡ p
          → (fd : ℕ) → get fd h.dirs ≡ some dir
          → (after_open k (lock_path dir) p).1 ≡ err internal
      unfolding after_open after_flock
      refused (s, err x) e fd found = refl
      refused (s, ok new) e fd found = elim (Bool-cases ((k.flock new libc_flock_flags s).1 == 0)) [
        | inl granted ↦ absurd (
            l.flock_refused new fd (lock_path dir) s
              (apart (lock_path dir) h.kernel h.dirs o new (ap (λ p. p.1) e) fd dir found)
              (subst (λ (p : S × Result ℕ). l.refers p.0 new ≡ some (lock_path dir)) e
                (l.open_refers (lock_path dir) h.kernel new (ap (λ p. p.1) e)))
              (subst (λ (p : S × Result ℕ). l.refers p.0 fd ≡ some (lock_path dir)) e
                (open_Owned (lock_path dir) h.kernel h.dirs o fd dir found).0)
              (subst (λ (p : S × Result ℕ). l.locked p.0 fd ≡ true) e
                (open_Owned (lock_path dir) h.kernel h.dirs o fd dir found).1)
              ((==_iff (k.flock new libc_flock_flags s).1 0).0 granted))
        | inr no_lock ↦ rw (no_lock, after_flock) refl
      ]

      abbrev Good : S × Result EngineLock → Type 0
      Good p = Owned (register dir h.dirs p).kernel (register dir h.dirs p).dirs

      -- The new descriptor, in a state that keeps what is held.
      module _ (new : ℕ) (s : S) (mine : l.refers s new ≡ some (lock_path dir))
          (others : Owned s h.dirs)
          (alone : (g : ℕ) (d : Bytes) → get g h.dirs ≡ some d → new ≢ g) where
        granted_Good :
            l.locked (k.flock new libc_flock_flags s).0 new ≡ true
            → Good (
              (k.flock new libc_flock_flags s).0,
              ok (record { file = new; path = lock_path dir }),
            )
        unfolding register
        granted_Good held fd d found =
            go (new == fd) refl (sym (get-insert new fd dir h.dirs) ∙ found)
          where
            go :
                (b : Bool)
                → (new == fd) ≡ b
                → (if b then some dir else get fd h.dirs) ≡ some d
                → (l.refers (k.flock new libc_flock_flags s).0 fd ≡ some (lock_path d))
                  × (l.locked (k.flock new libc_flock_flags s).0 fd ≡ true)
            go true e h =
                let same : new ≡ fd = (==_iff new fd).0 e in
                let dirs : dir ≡ d = cc (h) in
                (
                  l.flock_refers new fd s
                      ∙ subst (λ g. l.refers s g ≡ some (lock_path d)) same
                          (mine ∙ ap (λ x. some (lock_path x)) dirs),
                  subst (λ g. l.locked (k.flock new libc_flock_flags s).0 g ≡ true) same held,
                )
            go false e h = (
              l.flock_refers new fd s ∙ (others fd d h).0,
              l.flock_keeps new fd s (alone fd d h) ∙ (others fd d h).1,
            )

        refused_Good : Good (k.close new (k.flock new libc_flock_flags s).0, err internal)
        unfolding register
        refused_Good fd d found =
            let u = l.close_keeps new fd (k.flock new libc_flock_flags s).0 (alone fd d found) in
            (
              u.0 ∙ l.flock_refers new fd s ∙ (others fd d found).0,
              u.1 ∙ l.flock_keeps new fd s (alone fd d found) ∙ (others fd d found).1,
            )

        after_flock-Good : Good (after_flock k (lock_path dir) new (k.flock new libc_flock_flags s))
        unfolding after_flock
        after_flock-Good = elim (Bool-cases ((k.flock new libc_flock_flags s).1 == 0)) [
          | inl granted ↦
              rw (granted, after_flock)
                (granted_Good
                  (l.flock_granted new s ((==_iff (k.flock new libc_flock_flags s).1 0).0 granted)))
          | inr no_lock ↦ rw (no_lock, after_flock) refused_Good
        ]

      after_open-Good : (p : S × Result ℕ) → opened ≡ p → Good (after_open k (lock_path dir) p)
      unfolding after_open register
      after_open-Good (s, err x) e =
          subst (λ (p : S × Result ℕ). Owned p.0 h.dirs) e
            (open_Owned (lock_path dir) h.kernel h.dirs o)
      after_open-Good (s, ok new) e =
          after_flock-Good new s
            (subst (λ (p : S × Result ℕ). l.refers p.0 new ≡ some (lock_path dir)) e
              (l.open_refers (lock_path dir) h.kernel new (ap (λ p. p.1) e)))
            (subst (λ (p : S × Result ℕ). Owned p.0 h.dirs) e
              (open_Owned (lock_path dir) h.kernel h.dirs o))
            (apart (lock_path dir) h.kernel h.dirs o new (ap (λ p. p.1) e))

    Step-Owned : (h i : Held S) → Owned h.kernel h.dirs → Step h i → Owned i.kernel i.dirs
    unfolding acquire drop
    Step-Owned h i o (acquires dir) =
        after_open-Good dir h o (k.open_file (lock_path dir) h.kernel) refl
    Step-Owned h i o (drops lock mine) =
        λ fd d found. go fd d (lock.file == fd) refl (sym (get-remove lock.file fd h.dirs) ∙ found)
      where
        go :
            (fd : ℕ) (d : Bytes) (b : Bool)
            → (lock.file == fd) ≡ b
            → (if b then none else get fd h.dirs) ≡ some d
            → (l.refers (k.close lock.file h.kernel) fd ≡ some (lock_path d))
              × (l.locked (k.close lock.file h.kernel) fd ≡ true)
        go fd d true e h = absurd (cc (h))
        go fd d false e found =
            let u = l.close_keeps lock.file fd h.kernel (ground (arith, e)) in
            (u.0 ∙ (o fd d found).0, u.1 ∙ (o fd d found).1)

    Reach-Owned : (h i : Held S) → Owned h.kernel h.dirs → Reach h i → Owned i.kernel i.dirs
    Reach-Owned h i o initial = o
    Reach-Owned h i o (later r step) = Step-Owned _ i (Reach-Owned h _ o r) step

    -- A refused lock leaves the others.
    still :
        (dir : Bytes) (h : Held S) (p : S × Result EngineLock)
        → p.1 ≡ err internal
        → (fd : ℕ) → get fd h.dirs ≡ some dir
        → Owned (register dir h.dirs p).kernel (register dir h.dirs p).dirs
        → l.locked p.0 fd ≡ true
    unfolding register
    still dir h (t, err x) failed fd found good = (good fd dir found).1
    still dir h (t, ok lock) failed fd found good = absurd (cc (failed))

    -- Engines that start without a lock and acquire and drop locks in any order: while a directory is locked,
    -- acquiring its lock again fails with the internal error, and all the locks stay held in the kernel.
    pub acquire-excludes :
        (s : S) (h : Held S)
        → Reach (record { kernel = s; dirs = [] }) h
        → (fd : ℕ) (dir : Bytes) → get fd h.dirs ≡ some dir
        → ((acquire k dir h.kernel).1 ≡ err internal)
          × (l.locked h.kernel fd ≡ true)
          × (l.locked (acquire k dir h.kernel).0 fd ≡ true)
    unfolding acquire get
    acquire-excludes s h r fd dir found =
        let o =
          Reach-Owned (record { kernel = s; dirs = [] }) h
            (λ fd d none_held. absurd (cc (none_held))) r in
        let failed = refused dir h o (k.open_file (lock_path dir) h.kernel) refl fd found in
        (
          failed,
          (o fd dir found).1,
          still dir h (acquire k dir h.kernel) failed fd found
              (after_open-Good dir h o (k.open_file (lock_path dir) h.kernel) refl),
        )
