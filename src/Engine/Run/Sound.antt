-- ===== src/Engine/Run/Sound.antt =====
-- The invariant of an engine over its runs: ids below the counter, and a cache that is current.
use z1kv.Common.{
  ℕ, ◌-◌, ◌≡◌, ◌∙◌, ◌<◌, refl, sym, ap, subst, Bool, true, false, Option, none, some, ◌==◌, ==_iff,
  if◌then◌else◌, Option-cases, Bool-cases, inl, inr, arith,
}
use mathlib.Core.Option.{some-injective}
use z1kv.Common.Map.{contains_key}
use z1kv.Errors.{Result, ok, err}
use z1kv.Effects.{Exec, continue, ◌>>=◌}
use z1kv.Mvcc.Types.{TxnSnapshot, VisibilityManager, snapshot}
use z1kv.Mvcc.Filter.{is_visible}
use z1kv.Mvcc.Prune.{u64_mod}
use z1kv.Mvcc.Manager.{take_snapshot, get_begin_ts}
use z1kv.Mvcc.Manager.Wf.{Wf}
use z1kv.Mvcc.Manager.Below.{Below}
use z1kv.Mvcc.Manager.Snapshots.{take_snapshot-visible, delete_committed}
use z1kv.Mvcc.Cache.{SnapshotCache, SnapshotCacheEntry, invalidate, build, current_snapshot}
use z1kv.Engine.{Engine}
use z1kv.Engine.Transactions.{next_txn_id, begin_attempts, begin_txn, ensure_active_txn}
use z1kv.Engine.Transactions.Begins.{Ready, Began, begin_txn-Began}
use z1kv.Engine.Transactions.Untouched.{Untouched, Leaves}

-- A snapshot that shows exactly the rows of the committed transactions.
abbrev pub Current : VisibilityManager → TxnSnapshot → Type 0
Current mvcc s =
    (created : ℕ) → is_visible s created none ≡ contains_key created mvcc.committed_history

pub record Sound (e : Engine) : Type 0 where
  pub below : Below e.txn_counter e.mvcc
  pub counter_u64 : e.txn_counter < u64_mod
  -- A cached snapshot of the current generation is current.
  pub fresh :
      (c : SnapshotCacheEntry)
      → e.snapshot_cache.full_cache ≡ some c
      → c.built_in ≡ e.snapshot_cache.generation
      → Current e.mvcc c.cached

pub take_snapshot-Current :
    (vm : VisibilityManager) → Wf vm → Current vm (take_snapshot snapshot vm)
unfolding delete_committed
take_snapshot-Current vm w created =
    ground (arith, take_snapshot-visible snapshot vm w created none)

abbrev pub Keeps : {A : Type 0} → Exec Engine A → Type 0
Keeps m = (e : Engine) → Sound e → Sound (m e).0

pub same-Sound :
    (e out : Engine)
    → out.mvcc ≡ e.mvcc
    → out.snapshot_cache ≡ e.snapshot_cache
    → out.txn_counter ≡ e.txn_counter
    → Sound e
    → Sound out
same-Sound e out m c n s = record {
  below = subst (λ k. Below k out.mvcc) (sym n) (subst (Below e.txn_counter) (sym m) s.below);
  counter_u64 = rw n s.counter_u64;
  fresh = λ entry found now.
      subst (λ (vm : VisibilityManager). Current vm entry.cached) (sym m)
        (s.fresh entry (ap (λ (k : SnapshotCache). k.full_cache) (sym c) ∙ found)
          (now ∙ ap (λ (k : SnapshotCache). k.generation) c));
}

pub Untouched-Sound : (e out : Engine) → Untouched e out → Sound e → Sound out
Untouched-Sound e out u s = same-Sound e out u.mvcc_same u.cache_same u.counter_same s

module _ {A B : Type 0} where
  then_Sound :
      (f : A → Exec Engine B) (p : Engine × Result A)
      → Sound p.0
      → ((a : A) → Keeps (f a))
      → Sound (continue f p).0
  then_Sound f (s, err x) u k = u
  then_Sound f (s, ok a) u k = k a s u

  pub >>=-Keeps :
      (m : Exec Engine A) (f : A → Exec Engine B)
      → Keeps m
      → ((a : A) → Keeps (f a))
      → Keeps (m >>= f)
  >>=-Keeps m f l k e s = then_Sound f (m e) (l e s) k

pub Leaves-Keeps : {A : Type 0} (m : Exec Engine A) → Leaves m → Keeps m
Leaves-Keeps m l e s = Untouched-Sound e (m e).0 (l e) s

-- Another manager under the same history, or without a cached snapshot.
pub moved-Sound :
    (e : Engine) (vm : VisibilityManager)
    → Sound e
    → Below e.txn_counter vm
    → vm.committed_history ≡ e.mvcc.committed_history
    → Sound (record e { mvcc = vm })
moved-Sound e vm s b h = record {
  below = b;
  counter_u64 = s.counter_u64;
  fresh = λ c found now created. s.fresh c found now created ∙ ap (contains_key created) (sym h);
}

pub cleared-Sound :
    (e : Engine) (vm : VisibilityManager)
    → Sound e
    → Below e.txn_counter vm
    → Sound (record e { mvcc = vm; snapshot_cache = invalidate e.snapshot_cache })
unfolding invalidate
cleared-Sound e vm s b = record {
  below = b;
  counter_u64 = s.counter_u64;
  fresh = λ c found now. absurd (cc);
}

pub ensure_active_txn-Keeps : (id : ℕ) → Keeps (ensure_active_txn id)
unfolding ensure_active_txn
ensure_active_txn-Keeps id e s = elim (Option-cases (get_begin_ts id e.mvcc)) [
  | inl gone ↦ rw (gone, ensure_active_txn) s
  | inr (b, found) ↦ rw (found, ensure_active_txn) s
]

pub begin_txn-Keeps : Keeps begin_txn
unfolding begin_txn begin_attempts next_txn_id
begin_txn-Keeps e s = elim (Bool-cases (e.txn_counter == u64_mod - 1)) [
  | inl last ↦ rw (last, next_txn_id) s
  | inr room ↦ began (begin_txn-Began e ready (ground (arith, s.counter_u64)))
]
  where
    ready : Ready e
    ready = record { wf = s.below.wf; ahead = s.below.ahead; active_below = s.below.active_below }

    began :
        {r : e.txn_counter < u64_mod - 1} → Began e ready r (begin_txn e) → Sound (begin_txn e).0
    began {r} b = record {
      below = record {
        wf = b.ready.wf;
        ahead = b.ready.ahead;
        active_below = b.ready.active_below;
      };
      counter_u64 = omega (arith, b.counter, r);
      fresh = λ c found now. absurd (cc (b.uncached, found));
    }

built-Sound :
    (e : Engine) → Sound e → Sound (record e { snapshot_cache = (build e.mvcc e.snapshot_cache).0 })
unfolding build
built-Sound e s = record {
  below = s.below;
  counter_u64 = s.counter_u64;
  fresh = λ c found now.
      subst (λ (k : SnapshotCacheEntry). Current e.mvcc k.cached) (some-injective _ _ found)
        (take_snapshot-Current e.mvcc s.below.wf);
}

-- What the snapshot of the moment is, and how it leaves the engine.
pub record Shown (e : Engine) (out : SnapshotCache × TxnSnapshot) : Type 0 where
  pub sound : Sound (record e { snapshot_cache = out.0 })
  pub current : Current e.mvcc out.1

pub current_snapshot-Shown :
    (e : Engine) → Sound e → Shown e (current_snapshot e.mvcc e.snapshot_cache)
unfolding current_snapshot build
current_snapshot-Shown e s = go e.snapshot_cache.full_cache refl
  where
    builds : Shown e (build e.mvcc e.snapshot_cache)
    builds = record { sound = built-Sound e s; current = take_snapshot-Current e.mvcc s.below.wf }

    hit :
        (c : SnapshotCacheEntry) (b : Bool)
        → e.snapshot_cache.full_cache ≡ some c
        → (c.built_in == e.snapshot_cache.generation) ≡ b
        → Shown e (if b then (e.snapshot_cache, c.cached) else build e.mvcc e.snapshot_cache)
    hit c false found now = builds
    hit c true found now = record {
      sound = s;
      current = s.fresh c found ((==_iff c.built_in e.snapshot_cache.generation).0 now);
    }

    go :
        (o : Option SnapshotCacheEntry)
        → e.snapshot_cache.full_cache ≡ o
        → Shown e (elim o as (λ x. SnapshotCache × TxnSnapshot) [
          | none ↦ build e.mvcc e.snapshot_cache
          | some entry ↦
              if entry.built_in == e.snapshot_cache.generation
              then (e.snapshot_cache, entry.cached)
              else build e.mvcc e.snapshot_cache
        ])
    go none h = builds
    go (some c) h = hit c (c.built_in == e.snapshot_cache.generation) h refl
