-- ===== src/Mvcc/Cache/Fresh.antt =====
-- The accesses of the threads keep what they know, and a call of `snapshot` returns a fresh one.
use z1kv.Common.{
  ℕ, suc, ◌≡◌, ◌≤◌, refl, subst, [], Bool-cases, inl, inr, Option, none, some, ◌==◌, arith,
}
use mathlib.Core.Option.{some-injective}
use z1kv.Common.Map.{Map, get}
use z1kv.Mvcc.Types.{TxnSnapshot, VisibilityManager, snapshot}
use z1kv.Mvcc.Manager.{take_snapshot}
use z1kv.Mvcc.Cache.{SnapshotCacheEntry, SnapshotCache}
use z1kv.Mvcc.Cache.Threads.{
  Reader, called, loaded, missed, built, validated, returned, Invalidator, cleared, bumping, Shared,
  lookup_entry, read_step, invalidate_step, Threads, resume, Step, mutates, calls_snapshot, reads,
  calls_invalidate, invalidates, Reach, initial, later,
}
use z1kv.Mvcc.Cache.Calm.{
  TakenIn, weaken, Fits, Calm, put_reader, later_Fits, cleared_Fits, same_Fits,
}

module _ (managers : ℕ → VisibilityManager) where
  -- What an access of a reader does to the shared cells, and what the reader knows then.
  record Kept (s : Shared) (out : Shared × Reader) : Type 0 where
    moment_same : out.0.moment ≡ s.moment
    cleared_same : out.0.cleared_at ≡ s.cleared_at
    entry :
        (c : SnapshotCacheEntry)
        → out.0.cache.full_cache ≡ some c
        → TakenIn managers out.0.cleared_at out.0.moment c.cached
    fits : Fits managers out.0 out.1

  module _ (s : Shared) (past : s.cleared_at ≤ s.moment)
      (entry : (c : SnapshotCacheEntry)
        → s.cache.full_cache ≡ some c
        → TakenIn managers s.cleared_at s.moment c.cached) where
    unmoved : (r : Reader) → Fits managers s r → Kept s (s, r)
    unmoved r f = record { moment_same = refl; cleared_same = refl; entry = entry; fits = f }

    lookup_entry-Fits :
        (since gen : ℕ) (o : Option SnapshotCacheEntry)
        → s.cache.full_cache ≡ o
        → since ≤ s.cleared_at
        → Fits managers s (lookup_entry since gen o)
    unfolding lookup_entry
    lookup_entry-Fits since gen none h l = l
    lookup_entry-Fits since gen (some c) h l = elim (Bool-cases (c.built_in == gen)) [
      | inr miss ↦ rw (miss) l
      | inl same ↦ rw (same) (
          weaken managers s.cleared_at since s.moment s.moment c.cached l (omega arith) (entry c h))
    ]

    read_step-Kept : (r : Reader) → Fits managers s r → Kept s (read_step managers r s)
    unfolding read_step
    read_step-Kept (called since) t = unmoved (loaded since s.cache.generation) t
    read_step-Kept (loaded since gen) t =
        unmoved (lookup_entry since gen s.cache.full_cache)
          (lookup_entry-Fits since gen s.cache.full_cache refl t)
    read_step-Kept (missed since gen) t =
        unmoved (built since gen (take_snapshot snapshot (managers s.moment))) (
          record {
            at_moment = s.moment;
            not_before = omega arith;
            not_after = omega arith;
            taken = refl;
          },
          t,
        )
    read_step-Kept (built since gen snap) t = elim (Bool-cases (s.cache.generation == gen)) [
      | inr moved ↦ rw (moved) (unmoved (called since) t.1)
      | inl same ↦ rw (same) (unmoved (validated since gen snap) t)
    ]
    read_step-Kept (validated since gen snap) (t, u) = record {
      moment_same = refl;
      cleared_same = refl;
      entry = λ c found.
          subst (λ (k : SnapshotCacheEntry). TakenIn managers s.cleared_at s.moment k.cached)
            (some-injective _ _ found)
            (weaken managers s.moment s.cleared_at s.moment s.moment snap past (omega arith) t);
      fits =
          weaken managers s.moment since s.moment s.moment snap (omega (arith, u, past))
            (omega arith) t;
    }
    read_step-Kept (returned since snap) t = unmoved (returned since snap) t

  invalidate_step-Kept :
      (i : Invalidator) (t : Threads)
      → Calm managers t
      → (m : Map Invalidator)
      → Calm managers (record t { shared = (invalidate_step i t.shared).0; invalidators = m })
  unfolding invalidate_step
  invalidate_step-Kept cleared t c m = record { past = c.past; entry = c.entry; fit = c.fit }
  invalidate_step-Kept (bumping old) t c m = record {
    past = c.past;
    entry = c.entry;
    fit = λ id r found.
        same_Fits managers t.shared (invalidate_step (bumping old) t.shared).0 refl refl r
          (c.fit id r found);
  }

  pub Step-Calm : (t u : Threads) → Calm managers t → Step managers t u → Calm managers u
  Step-Calm t u c (mutates free) = record {
    past = omega (arith, c.past);
    entry = λ e found.
        weaken managers t.shared.cleared_at t.shared.cleared_at t.shared.moment
          (suc t.shared.moment) e.cached (omega arith) (omega arith) (c.entry e found);
    fit = λ id r found. later_Fits managers t.shared r (free id r found) (c.fit id r found);
  }
  Step-Calm t u c (calls_snapshot id) = record {
    past = c.past;
    entry = c.entry;
    fit =
        put_reader managers t.shared t.shared t.readers id (called t.shared.cleared_at) c.fit
          (λ q f. f) (omega arith);
  }
  Step-Calm t u c (reads id r found) =
      let k = read_step-Kept t.shared c.past c.entry r (c.fit id r found) in
      record {
        past = omega (arith, k.moment_same, k.cleared_same, c.past);
        entry = k.entry;
        fit =
            put_reader managers t.shared (read_step managers r t.shared).0 t.readers id
              (read_step managers r t.shared).1 c.fit
              (same_Fits managers t.shared (read_step managers r t.shared).0 k.moment_same
                k.cleared_same)
              k.fits;
      }
  Step-Calm t u c (calls_invalidate id) = record {
    past = omega arith;
    entry = λ e found. absurd (cc);
    fit = λ j r found. cleared_Fits managers t.shared c.past r (c.fit j r found);
  }
  Step-Calm t u c (invalidates id i found) =
      invalidate_step-Kept i t c (resume id (invalidate_step i t.shared).1 t.invalidators)

  Reach-Calm : (t u : Threads) → Calm managers t → Reach managers t u → Calm managers u
  Reach-Calm t u c initial = c
  Reach-Calm t u c (later r step) = Step-Calm _ u (Reach-Calm t _ c r) step

  -- From a cache without an entry and without a call under way, whatever the interleaving of the accesses of
  -- any number of calls of `snapshot` and `invalidate`, where the manager changes only while no `snapshot` is
  -- under way: a call of `snapshot` that has returned gives a snapshot of the manager at a moment of the run
  -- that is not before the last clearing of the cache ahead of the call.
  pub snapshot-fresh :
      (cache : SnapshotCache)
      → cache.full_cache ≡ none
      → (moment : ℕ) (t : Threads)
      → Reach managers
          (record {
            shared = record { cache = cache; moment = moment; cleared_at = moment };
            readers = [];
            invalidators = [];
          })
          t
      → (id since : ℕ) (snap : TxnSnapshot) → get id t.readers ≡ some (returned since snap)
      → TakenIn managers since t.shared.moment snap
  unfolding get
  snapshot-fresh cache empty moment t r id since snap found =
      (Reach-Calm _ t calm r).fit id (returned since snap) found
    where
      calm : Calm managers (record {
        shared = record { cache = cache; moment = moment; cleared_at = moment };
        readers = [];
        invalidators = [];
      })
      calm = record {
        past = omega arith;
        entry = λ c h. absurd (cc (h, empty));
        fit = λ j q h. absurd (cc);
      }
