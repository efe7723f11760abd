-- ===== src/Engine/Open/Loads.antt =====
-- The checkpoint that is loaded behind one of the engine.
use z1kv.Common.{ℕ, ◌^◌, ◌≡◌, ◌<◌, ◌⊎◌, ◌∙◌, refl, sym, ap, subst, Option, none, some, inl}
use z1kv.Errors.{Result, ok, err, Z1Error, wal}
use z1kv.Effects.{continue, ◌>>=◌}
use z1kv.Wal.Writer.{Inner, flush_and_sync}
use z1kv.Wal.Checkpoint.{CheckpointDir, load_latest}
use z1kv.Wal.Checkpoint.Laws.{write-Checkpointed}
use z1kv.Store.Flush.{FlushEngine, flush_l1_to_l2}
use z1kv.Engine.{World, Engine, with_log}
use z1kv.Engine.Transactions.{checkpoint}
use z1kv.Engine.Open.Saved.{saved_state}
use z1kv.Engine.Open.Saves.{saves, save, sync, run_checkpoint-dir, run_checkpoint-done}

module _ (w : World) (now_ms : ℕ) where
  -- The one of before, or that of the engine, and the latter when the checkpoint succeeds.
  pub record Loads (e : Engine) (out : Engine × Result (Unit {0})) : Type 0 where
    pub either :
        (load_latest w.state_codec out.0.checkpoints ≡ load_latest w.state_codec e.checkpoints)
        ⊎ (load_latest w.state_codec out.0.checkpoints ≡ some (saved_state now_ms e))
    pub done :
        out.1 ≡ ok tt → load_latest w.state_codec out.0.checkpoints ≡ some (saved_state now_ms e)

  stays : (e out : Engine) (x : Z1Error) → out.checkpoints ≡ e.checkpoints → Loads e (out, err x)
  stays e out x same = record {
    either = inl (ap (load_latest w.state_codec) same);
    done = λ h. absurd (cc (h));
  }

  save-Loads : (e : Engine) → e.mvcc.committed_txn < 2 ^ 64 → Loads e (save w now_ms e)
  save-Loads e small = go e.layers.l1.wal
    where
      go :
          (log : Option Inner)
          → Loads e (elim log as (λ x. Engine × Result (Unit {0})) [
            | none ↦ (e, err wal)
            | some log ↦
                let (s, r) = saves w now_ms e (log, e.checkpoints) in
                (with_log s.0 (record e { checkpoints = s.1 }), r)
          ])
      go none = stays e e wal refl
      go (some log) =
          let c =
            write-Checkpointed w.state_codec (saved_state now_ms e) w.checkpoint_file
              w.checkpoint_pointer e.checkpoints small in
          let dir = run_checkpoint-dir w (saved_state now_ms e) (log, e.checkpoints) in
          record {
            either =
                subst
                  (λ (d : CheckpointDir).
                    (load_latest w.state_codec d ≡ load_latest w.state_codec e.checkpoints)
                    ⊎ (load_latest w.state_codec d ≡ some (saved_state now_ms e)))
                  (sym dir) c.either;
            done = λ h.
                ap (load_latest w.state_codec) dir
                ∙ c.done (run_checkpoint-done w (saved_state now_ms e) (log, e.checkpoints) h);
          }

  sync-Loads :
      (e : Engine)
      → e.mvcc.committed_txn < 2 ^ 64
      → Loads e ((sync w now_ms >>= λ t. save w now_ms) e)
  sync-Loads e small = go e.layers.l1.wal
    where
      flushed :
          (p : Inner × Result (Unit {0}))
          → Loads e (continue (λ t. save w now_ms) (with_log p.0 e, p.1))
      flushed (l, ok t) =
          let s = save-Loads (with_log l e) small in record { either = s.either; done = s.done }
      flushed (l, err x) = stays e (with_log l e) x refl

      go :
          (log : Option Inner)
          → Loads e (
              continue
                (λ t. save w now_ms)
                (elim log as (λ x. Engine × Result (Unit {0})) [
                  | none ↦ (e, err wal)
                  | some log ↦ (
                    with_log (flush_and_sync w.faults w.torn w.codec log).0 e,
                    (flush_and_sync w.faults w.torn w.codec log).1,
                  )
                ]))
      go none = stays e e wal refl
      go (some log) = flushed (flush_and_sync w.faults w.torn w.codec log)

  pub checkpoint-Loads :
      (e : Engine) → e.mvcc.committed_txn < 2 ^ 64 → Loads e (checkpoint w now_ms e)
  unfolding checkpoint
  checkpoint-Loads e small = flushed (flush_l1_to_l2 w.disk_format w.patch_write e.layers)
    where
      flushed :
          (p : FlushEngine × Result ℕ)
          → Loads e (
              continue (λ n. sync w now_ms >>= λ t. save w now_ms) (record e { layers = p.0 }, p.1))
      flushed (l, ok n) =
          let s = sync-Loads (record e { layers = l }) small in
          record { either = s.either; done = s.done }
      flushed (l, err x) = stays e (record e { layers = l }) x refl
