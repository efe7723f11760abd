-- ===== src/Engine/Open/Saves.antt =====
-- What a checkpoint of the engine leaves in its directory.
use z1kv.Common.{
  ℕ, ◌-◌, ◌≡◌, ◌≤◌, ◌<◌, refl, sym, subst, Option, none, some, inl, inr, Option-cases, arith,
}
use z1kv.Common.Map.{Map, get, Distinct}
use z1kv.Errors.{Result, ok, err, wal}
use z1kv.Effects.{Exec, pure, continue, ◌>>=◌}
use z1kv.Mvcc.Prune.{u64_mod}
use z1kv.Wal.Record as record_kind
use z1kv.Wal.Record.{WalEntry}
use z1kv.Wal.Writer.{Inner, append_durable, flush_and_sync, truncate_before}
use z1kv.Wal.Checkpoint.{
  CheckpointState, CheckpointDir, Durable, on_log, write, load_latest, recovery_baseline,
  run_checkpoint,
}
use z1kv.Store.Flush.{flush_l1_to_l2}
use z1kv.Engine.{World, Engine, on_layers, on_wal, with_log}
use z1kv.Engine.Transactions.{checkpoint, on_durable}
use z1kv.Engine.Run.Sound.{Sound, Leaves-Keeps}
use z1kv.Engine.Transactions.Untouched.{on_wal-Leaves, on_durable-Leaves, on_layers-Leaves}
use z1kv.Engine.Open.{or_nothing}
use z1kv.Engine.Open.Saved.{Fits, saved_state, saved_state-FitsState, write-Fits}

module _ {A B : Type 0} (P : Engine → Type 0) where
  then_holds :
      (f : A → Exec Engine B) (p : Engine × Result A)
      → P p.0
      → ((a : A) (e : Engine) → P e → P (f a e).0)
      → P (continue f p).0
  then_holds f (s, err x) u k = u
  then_holds f (s, ok a) u k = k a s u

  >>=-holds :
      (m : Exec Engine A) (f : A → Exec Engine B)
      → ((e : Engine) → P e → P (m e).0)
      → ((a : A) (e : Engine) → P e → P (f a e).0)
      → (e : Engine) → P e
      → P ((m >>= f) e).0
  >>=-holds m f l k e s = then_holds f (m e) (l e s) k

module _ (w : World) where
  -- The engine satisfies the invariant of its runs, and its directory has a checkpoint for an opening.
  pub record Saved (e : Engine) : Type 0 where
    pub sound : Sound e
    pub fits : Fits w.state_codec e.checkpoints

  -- The steps behind the write leave the directory.
  pub run_checkpoint-dir :
      (state : CheckpointState) (s : Durable)
      → (run_checkpoint w.faults w.torn w.codec w.wal_config w.state_codec w.checkpoint_file
          w.checkpoint_pointer state s).0.1
        ≡ (write w.state_codec w.checkpoint_file w.checkpoint_pointer state s.1).0
  unfolding run_checkpoint
  run_checkpoint-dir state (log, d) =
      wrote (write w.state_codec w.checkpoint_file w.checkpoint_pointer state d)
    where
      marks : Exec Durable (Unit {0})
      marks = on_log (
          append_durable w.faults w.torn w.codec w.wal_config state.committed_txn
            (record_kind.checkpoint state.checkpoint_id))

      truncates : Exec Durable ℕ
      truncates s = on_log (truncate_before w.faults w.torn s.0.seq) s

      truncated :
          (d : CheckpointDir) (p : Inner × Result ℕ)
          → (continue {S = Durable} {B = Unit {0}} (λ n. pure tt) ((p.0, d), p.1)).0.1 ≡ d
      truncated d (l, ok n) = refl
      truncated d (l, err x) = refl

      marked :
          (d : CheckpointDir) (p : Inner × Result (Unit {0}))
          → (continue {S = Durable} {B = Unit {0}}
              (λ t. truncates >>= λ n. pure tt)
              ((p.0, d), p.1)).0.1
            ≡ d
      marked d (l, ok t) = truncated d (truncate_before w.faults w.torn l.seq l)
      marked d (l, err x) = refl

      wrote :
          (p : CheckpointDir × Result (Unit {0}))
          → (continue {S = Durable} {B = Unit {0}}
              (λ t. marks >>= λ t. truncates >>= λ n. pure tt)
              ((log, p.0), p.1)).0.1
            ≡ p.0
      wrote (d', ok t) = marked d' (
          append_durable w.faults w.torn w.codec w.wal_config state.committed_txn
            (record_kind.checkpoint state.checkpoint_id) log)
      wrote (d', err x) = refl

  -- A checkpoint that succeeds has written its files.
  pub run_checkpoint-done :
      (state : CheckpointState) (s : Durable)
      → (run_checkpoint w.faults w.torn w.codec w.wal_config w.state_codec w.checkpoint_file
          w.checkpoint_pointer state s).1
        ≡ ok tt
      → (write w.state_codec w.checkpoint_file w.checkpoint_pointer state s.1).1 ≡ ok tt
  unfolding run_checkpoint
  run_checkpoint-done state (log, d) =
      wrote (write w.state_codec w.checkpoint_file w.checkpoint_pointer state d)
    where
      rest : Unit {0} → Exec Durable (Unit {0})
      rest t =
          on_log (
            append_durable w.faults w.torn w.codec w.wal_config state.committed_txn
              (record_kind.checkpoint state.checkpoint_id))
          >>= λ t. (λ s. on_log (truncate_before w.faults w.torn s.0.seq) s) >>= λ n. pure tt

      wrote :
          (p : CheckpointDir × Result (Unit {0}))
          → (continue {S = Durable} {B = Unit {0}} rest ((log, p.0), p.1)).1 ≡ ok tt
          → p.1 ≡ ok tt
      wrote (d', ok t) h = refl
      wrote (d', err x) h = absurd (cc (h))

  module _ (now_ms : ℕ) where
    abbrev pub saves : Engine → Exec Durable (Unit {0})
    saves e =
        run_checkpoint w.faults w.torn w.codec w.wal_config w.state_codec w.checkpoint_file
          w.checkpoint_pointer (saved_state now_ms e)

    abbrev pub save : Exec Engine (Unit {0})
    save e = on_durable (saves e) e

    save-Saved : (e : Engine) → Saved e → Saved (save e).0
    save-Saved e s = record {
      sound = Leaves-Keeps (on_durable (saves e)) (on_durable-Leaves (saves e)) e s.sound;
      fits = go e.layers.l1.wal;
    }
      where
        go :
            (log : Option Inner)
            → Fits w.state_codec
                (elim log as (λ x. Engine × Result (Unit {0})) [
                  | none ↦ (e, err wal)
                  | some log ↦
                      let (s, r) = saves e (log, e.checkpoints) in
                      (with_log s.0 (record e { checkpoints = s.1 }), r)
                ]).0.checkpoints
        go none = s.fits
        go (some log) =
            subst (Fits w.state_codec)
              (sym (run_checkpoint-dir (saved_state now_ms e) (log, e.checkpoints)))
              (write-Fits w.state_codec (saved_state now_ms e) w.checkpoint_file
                w.checkpoint_pointer e.checkpoints (saved_state-FitsState now_ms e s.sound)
                (omega (arith, s.sound.below.ahead, s.sound.counter_u64)) s.fits)

    abbrev pub sync : Exec Engine (Unit {0})
    sync = on_wal (flush_and_sync w.faults w.torn w.codec)

    sync-Saved : (e : Engine) → Saved e → Saved (sync e).0
    sync-Saved e s = record {
      sound = Leaves-Keeps sync (on_wal-Leaves (flush_and_sync w.faults w.torn w.codec)) e s.sound;
      fits = go e.layers.l1.wal;
    }
      where
        go :
            (log : Option Inner)
            → Fits w.state_codec
                (elim log as (λ x. Engine × Result (Unit {0})) [
                  | none ↦ (e, err wal)
                  | some log ↦ (
                    with_log (flush_and_sync w.faults w.torn w.codec log).0 e,
                    (flush_and_sync w.faults w.torn w.codec log).1,
                  )
                ]).0.checkpoints
        go none = s.fits
        go (some log) = s.fits

    -- A checkpoint of a sound engine whose directory is fit for an opening leaves a sound engine with such a
    -- directory, however its writes and calls end.
    pub checkpoint-Saved : (e : Engine) → Saved e → Saved (checkpoint w now_ms e).0
    unfolding checkpoint
    checkpoint-Saved =
        >>=-holds Saved (on_layers (flush_l1_to_l2 w.disk_format w.patch_write))
          (λ n. sync >>= λ t. save)
          (λ e s. record {
            sound =
                Leaves-Keeps (on_layers (flush_l1_to_l2 w.disk_format w.patch_write))
                  (on_layers-Leaves (flush_l1_to_l2 w.disk_format w.patch_write)) e s.sound;
            fits = s.fits;
          })
          (λ n. >>=-holds Saved sync (λ t. save) sync-Saved (λ t. save-Saved))

  -- The checkpoint that an opening starts from, if any.
  module _ (d : CheckpointDir) (fits : Fits w.state_codec d) where
    abbrev loaded : ℕ × Map ℕ
    loaded = or_nothing (recovery_baseline w.state_codec d)

    pub baseline-fits :
        Distinct loaded.1
        × ((k v : ℕ) → get k loaded.1 ≡ some v → k ≤ loaded.0)
        × (loaded.0 < u64_mod - 1)
    unfolding recovery_baseline get
    baseline-fits = elim (Option-cases (load_latest w.state_codec d)) [
      | inl gone ↦ rw (gone, recovery_baseline) (tt, λ k v h. absurd (cc (h)), omega arith)
      | inr (s, found) ↦
          let f = fits s found in rw (found, recovery_baseline) (f.distinct, f.history_le, f.room)
    ]
