-- ===== src/Mvcc/Cache/Calm.antt =====
-- txn/mod.rs `snapshot`: the callers of the cache hold the lock of the manager while they read. What each
-- thread knows then.
use z1kv.Common.{
  ℕ, suc, ◌≡◌, ◌∙◌, ◌≤◌, sym, subst, Bool, true, false, some, ◌==◌, if◌then◌else◌, arith,
}
use z1kv.Common.Map.{Map, get, insert, get-insert}
use z1kv.Mvcc.Types.{TxnSnapshot, VisibilityManager, snapshot}
use z1kv.Mvcc.Manager.{take_snapshot}
use z1kv.Mvcc.Cache.{SnapshotCacheEntry}
use z1kv.Mvcc.Cache.Threads.{
  is_returned, Reader, called, loaded, missed, built, validated, returned, Shared, clear_cache,
  Threads,
}

-- A snapshot of the manager at a moment that is not before `since`.
pub record TakenIn (managers : ℕ → VisibilityManager) (since moment : ℕ) (snap : TxnSnapshot)
    : Type 0 where
  pub at_moment : ℕ
  pub not_before : since ≤ at_moment
  pub not_after : at_moment ≤ moment
  pub taken : snap ≡ take_snapshot snapshot (managers at_moment)

module _ (managers : ℕ → VisibilityManager) where
  pub weaken :
      (a b m n : ℕ) (snap : TxnSnapshot)
      → b ≤ a
      → m ≤ n
      → TakenIn managers a m snap
      → TakenIn managers b n snap
  weaken a b m n snap l u t = record {
    at_moment = t.at_moment;
    not_before = omega (arith, l, t.not_before);
    not_after = omega (arith, u, t.not_after);
    taken = t.taken;
  }

  -- What a call of `snapshot` knows at each of its accesses.
  abbrev pub Fits : Shared → Reader → Type 0
  Fits s (called since) = since ≤ s.cleared_at
  Fits s (loaded since gen) = since ≤ s.cleared_at
  Fits s (missed since gen) = since ≤ s.cleared_at
  Fits s (built since gen snap) = TakenIn managers s.moment s.moment snap × (since ≤ s.cleared_at)
  Fits s (validated since gen snap) =
      TakenIn managers s.moment s.moment snap × (since ≤ s.cleared_at)
  Fits s (returned since snap) = TakenIn managers since s.moment snap

  abbrev pub AllFit : Shared → Map Reader → Type 0
  AllFit s readers = (id : ℕ) (r : Reader) → get id readers ≡ some r → Fits s r

  pub record Calm (t : Threads) : Type 0 where
    pub past : t.shared.cleared_at ≤ t.shared.moment
    pub entry :
        (c : SnapshotCacheEntry)
        → t.shared.cache.full_cache ≡ some c
        → TakenIn managers t.shared.cleared_at t.shared.moment c.cached
    pub fit : AllFit t.shared t.readers

  -- More time, and another cache, as long as no call is under way or the moment stays.
  pub put_reader :
      (s out : Shared) (readers : Map Reader) (id : ℕ) (r : Reader)
      → AllFit s readers
      → ((q : Reader) → Fits s q → Fits out q)
      → Fits out r
      → AllFit out (insert id r readers)
  put_reader s out readers id r all keeps fits j q found =
      go (id == j) (sym (get-insert id j r readers) ∙ found)
    where
      go : (b : Bool) → (if b then some r else get j readers) ≡ some q → Fits out q
      go true h = subst (λ (x : Reader). Fits out x) (cc (h)) fits
      go false h = keeps q (all j q h)

  pub later_Fits :
      (s : Shared) (r : Reader)
      → is_returned r ≡ true
      → Fits s r
      → Fits (record s { moment = suc s.moment }) r
  unfolding is_returned
  later_Fits s (returned since snap) h t =
      weaken since since s.moment (suc s.moment) snap (omega arith) (omega arith) t
  later_Fits s (called since) h t = absurd (cc)
  later_Fits s (loaded since gen) h t = absurd (cc)
  later_Fits s (missed since gen) h t = absurd (cc)
  later_Fits s (built since gen snap) h t = absurd (cc)
  later_Fits s (validated since gen snap) h t = absurd (cc)

  pub cleared_Fits :
      (s : Shared) → s.cleared_at ≤ s.moment → (r : Reader) → Fits s r → Fits (clear_cache s) r
  cleared_Fits s past (called since) t = omega (arith, past, t)
  cleared_Fits s past (loaded since gen) t = omega (arith, past, t)
  cleared_Fits s past (missed since gen) t = omega (arith, past, t)
  cleared_Fits s past (built since gen snap) (t, u) = (t, omega (arith, past, u))
  cleared_Fits s past (validated since gen snap) (t, u) = (t, omega (arith, past, u))
  cleared_Fits s past (returned since snap) t = t

  pub same_Fits :
      (s out : Shared)
      → out.moment ≡ s.moment
      → out.cleared_at ≡ s.cleared_at
      → (r : Reader) → Fits s r
      → Fits out r
  same_Fits s out m c (called since) t = omega (arith, c, t)
  same_Fits s out m c (loaded since gen) t = omega (arith, c, t)
  same_Fits s out m c (missed since gen) t = omega (arith, c, t)
  same_Fits s out m c (built since gen snap) (t, u) =
      (subst (λ k. TakenIn managers k k snap) (sym m) t, omega (arith, c, u))
  same_Fits s out m c (validated since gen snap) (t, u) =
      (subst (λ k. TakenIn managers k k snap) (sym m) t, omega (arith, c, u))
  same_Fits s out m c (returned since snap) t = subst (λ k. TakenIn managers since k snap) (sym m) t
