-- ===== src/DurableWriter/Atomic.antt =====
-- `write_durable` under any faults of the file system.
use z1kv.Common.{ℕ, zero, suc, ◌≡◌, refl, true, Option, some, ◌⊎◌, inl, inr, Bool-cases, arith}
use z1kv.Common.Bytes.{Bytes}
use z1kv.Errors.{Result, ok, err, Z1Error, IoKind, internal}
use z1kv.DurableWriter.{
  Directory, is_transient, fs_call, write_temp, write_to_temp, fsync_data, commit,
  write_durable_once, after_attempt, attempts, write_durable,
}

-- The final path holds the content of `before`, or all of the new content, synced before the rename.
abbrev pub Replaced : Bytes → (before after : Directory) → Type 0
Replaced bytes before after =
    ((after.final ≡ before.final) × (after.final_synced ≡ before.final_synced))
    ⊎ ((after.final ≡ some bytes) × (after.final_synced ≡ true))

-- Success means the new content, with the content and the rename synced.
abbrev pub Durable : Bytes → Directory → Result (Unit {0}) → Type 0
Durable bytes after (ok _) =
    (after.final ≡ some bytes) × (after.final_synced ≡ true) × (after.rename_synced ≡ true)
Durable bytes after (err e) = Unit

module _ (faults : ℕ → Option IoKind) (torn : ℕ → ℕ) (bytes : Bytes) where
  write_durable_once-Replaced :
      (d : Directory)
      → Replaced bytes d (write_durable_once faults torn bytes d).0
        × Durable bytes
            (write_durable_once faults torn bytes d).0
            (write_durable_once faults torn bytes d).1
  unfolding write_durable_once write_to_temp fsync_data commit fs_call write_temp
  write_durable_once-Replaced d = ground arith

  Replaced-trans :
      (a b c : Directory) → Replaced bytes a b → Replaced bytes b c → Replaced bytes a c
  Replaced-trans a b c p (inr q) = inr q
  Replaced-trans a b c (inl p) (inl q) = inl (cc, cc)
  Replaced-trans a b c (inr p) (inl q) = inr (cc, cc)

  attempts-Replaced :
      (n : ℕ) (last : Z1Error) (d : Directory)
      → Replaced bytes d (attempts faults torn n bytes last d).0
        × Durable bytes
            (attempts faults torn n bytes last d).0
            (attempts faults torn n bytes last d).1
  unfolding attempts after_attempt
  attempts-Replaced zero last d = (inl (refl, refl), tt)
  attempts-Replaced (suc n) last d =
      next (write_durable_once faults torn bytes d) (write_durable_once-Replaced d)
        (attempts-Replaced n)
    where
      next :
          (r : Directory × Result (Unit {0}))
          → Replaced bytes d r.0 × Durable bytes r.0 r.1
          → ((e : Z1Error) (u : Directory)
              → Replaced bytes u (attempts faults torn n bytes e u).0
                × Durable bytes
                    (attempts faults torn n bytes e u).0
                    (attempts faults torn n bytes e u).1)
          → Replaced bytes d (after_attempt (attempts faults torn n bytes) r).0
            × Durable bytes
                (after_attempt (attempts faults torn n bytes) r).0
                (after_attempt (attempts faults torn n bytes) r).1
      next (u, ok _) h ih = h
      next (u, err e) h ih = elim (Bool-cases (is_transient e)) [
        | inr final ↦ rw final (h.0, tt)
        | inl again ↦
            rw again
              (Replaced-trans d u (attempts faults torn n bytes e u).0 h.0 ((ih e u).0), (ih e u).1)
      ]

  -- Crash safety: whatever calls of the file system fail and however often the write is tried again,
  -- the final path holds the old content or the whole new one, and the new one was synced before
  -- it was put there. When the write succeeds, it holds the new one, and the rename is synced too.
  pub write_durable-Replaced :
      (d : Directory)
      → Replaced bytes d (write_durable faults torn bytes d).0
        × Durable bytes (write_durable faults torn bytes d).0 (write_durable faults torn bytes d).1
  unfolding write_durable
  write_durable-Replaced d = attempts-Replaced 3 internal d
