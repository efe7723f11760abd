-- ===== src/Engine/Transactions/Untouched.antt =====
-- The maintenance behind a commit leaves the transactions of the engine alone.
use z1kv.Common.{
  ℕ, ◌≡◌, ◌∙◌, refl, Bool, true, false, ◌&&◌, Option, none, some, ltb, leb, if◌then◌else◌,
}
use z1kv.Errors.{Result, ok, err, wal}
use z1kv.Effects.{Exec, pure, continue, ◌>>=◌}
use z1kv.Wal.Writer.{Inner, flush_and_sync}
use z1kv.Wal.Checkpoint.{Durable, run_checkpoint}
use z1kv.Store.Flush.{FlushEngine, flush_l1_to_l2, try_compact, Counts}
use z1kv.Engine.{World, Engine, on_layers, on_wal, with_log}
use z1kv.Engine.Transactions.{
  history_entries, wal_size, gc_watermark, checkpoint, checkpoint_if_large, compact_if_many,
  maybe_auto_maintain, on_durable,
}

-- A step that leaves the transactions of the engine alone.
pub record Untouched (e out : Engine) : Type 0 where
  pub mvcc_same : out.mvcc ≡ e.mvcc
  pub snapshots_same : out.txn_snapshots ≡ e.txn_snapshots
  pub cache_same : out.snapshot_cache ≡ e.snapshot_cache
  pub counter_same : out.txn_counter ≡ e.txn_counter

untouched : (e : Engine) → Untouched e e
untouched e = record {
  mvcc_same = refl;
  snapshots_same = refl;
  cache_same = refl;
  counter_same = refl;
}

abbrev pub Leaves : {A : Type 0} → Exec Engine A → Type 0
Leaves m = (e : Engine) → Untouched e (m e).0

module _ {A B : Type 0} where
  then_Untouched :
      (e : Engine) (f : A → Exec Engine B) (p : Engine × Result A)
      → Untouched e p.0
      → ((a : A) → Leaves (f a))
      → Untouched e (continue f p).0
  then_Untouched e f (s, err x) u l = u
  then_Untouched e f (s, ok a) u l =
      let v = l a s in
      record {
        mvcc_same = v.mvcc_same ∙ u.mvcc_same;
        snapshots_same = v.snapshots_same ∙ u.snapshots_same;
        cache_same = v.cache_same ∙ u.cache_same;
        counter_same = v.counter_same ∙ u.counter_same;
      }

  >>=-Leaves :
      (m : Exec Engine A) (f : A → Exec Engine B)
      → Leaves m
      → ((a : A) → Leaves (f a))
      → Leaves (m >>= f)
  >>=-Leaves m f l k e = then_Untouched e f (m e) (l e) k

pub on_wal-Leaves : {A : Type 0} (m : Exec Inner A) → Leaves (on_wal m)
on_wal-Leaves {A} m e = go e.layers.l1.wal
  where
    go :
        (log : Option Inner)
        → Untouched e
            (elim log as (λ x. Engine × Result A) [
              | none ↦ (e, err wal)
              | some log ↦ (with_log (m log).0 e, (m log).1)
            ]).0
    go none = untouched e
    go (some log) = record {
      mvcc_same = refl;
      snapshots_same = refl;
      cache_same = refl;
      counter_same = refl;
    }

pub on_durable-Leaves : {A : Type 0} (m : Exec Durable A) → Leaves (on_durable m)
on_durable-Leaves {A} m e = go e.layers.l1.wal
  where
    go :
        (log : Option Inner)
        → Untouched e
            (elim log as (λ x. Engine × Result A) [
              | none ↦ (e, err wal)
              | some log ↦
                  let (s, r) = m (log, e.checkpoints) in
                  (with_log s.0 (record e { checkpoints = s.1 }), r)
            ]).0
    go none = untouched e
    go (some log) = record {
      mvcc_same = refl;
      snapshots_same = refl;
      cache_same = refl;
      counter_same = refl;
    }

pub on_layers-Leaves : {A : Type 0} (m : Exec FlushEngine A) → Leaves (on_layers m)
on_layers-Leaves m e = record {
  mvcc_same = refl;
  snapshots_same = refl;
  cache_same = refl;
  counter_same = refl;
}

module _ (w : World) where
  pub checkpoint-Leaves : (now_ms : ℕ) → Leaves (checkpoint w now_ms)
  unfolding checkpoint
  checkpoint-Leaves now_ms =
      >>=-Leaves flush (λ n. sync >>= λ t. save)
        (on_layers-Leaves (flush_l1_to_l2 w.disk_format w.patch_write))
        (λ n.
          >>=-Leaves sync (λ t. save) (on_wal-Leaves (flush_and_sync w.faults w.torn w.codec))
            (λ t e. on_durable-Leaves (saved e) e))
    where
      flush : Exec Engine ℕ
      flush = on_layers (flush_l1_to_l2 w.disk_format w.patch_write)

      sync : Exec Engine (Unit {0})
      sync = on_wal (flush_and_sync w.faults w.torn w.codec)

      saved : Engine → Exec Durable (Unit {0})
      saved e =
          run_checkpoint w.faults w.torn w.codec w.wal_config w.state_codec w.checkpoint_file
            w.checkpoint_pointer
            (record {
              checkpoint_id = e.mvcc.committed_txn;
              committed_txn = e.mvcc.committed_txn;
              timestamp_ms = now_ms;
              committed_history = history_entries e.mvcc.committed_history;
            })

      save : Exec Engine (Unit {0})
      save e = on_durable (saved e) e

  pub maybe_auto_maintain-Leaves : (now_ms : ℕ) → Leaves (maybe_auto_maintain w now_ms)
  unfolding maybe_auto_maintain checkpoint_if_large compact_if_many
  maybe_auto_maintain-Leaves now_ms =
      >>=-Leaves (checkpoint_if_large w now_ms) (λ t. compact_if_many w)
        (λ e. large e (
          ltb 0 e.config.checkpoint_wal_size_threshold
          && leb e.config.checkpoint_wal_size_threshold (wal_size e)))
        (λ t e. many e (ltb 0 e.config.l2_compaction_threshold))
    where
      large :
          (e : Engine) (b : Bool) → Untouched e (if b then checkpoint w now_ms e else (e, ok tt)).0
      large e true = checkpoint-Leaves now_ms e
      large e false = untouched e

      compact : Engine → Exec FlushEngine (Option Counts)
      compact e =
          try_compact w.disk_format w.patch_write w.l2_broken w.removal (gc_watermark e)
            e.config.l2_compaction_threshold

      many :
          (e : Engine) (b : Bool)
          → Untouched e (if b then (on_layers (compact e) >>= λ c. pure tt) e else (e, ok tt)).0
      many e true =
          >>=-Leaves (on_layers (compact e)) (λ c. pure tt) (on_layers-Leaves (compact e))
            (λ c. untouched) e
      many e false = untouched e
