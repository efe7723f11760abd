-- ===== src/DurableWriter.antt =====
-- durable_writer.rs on a platform other than Windows: `SimpleFileWriter` and the retries of
-- `write_durable`. The state is what stands at the final path and at the temporary one. `faults`
-- gives the outcome of each call of the file system, in order, and a failing write leaves `torn`
-- bytes of its buffer. The waits between the attempts are left out.
pub mod Atomic
use z1kv.Common.{ℕ, zero, suc, Bool, true, false, Option, none, some, List, [], take, if◌then◌else◌}
use z1kv.Common.Bytes.{Bytes}
use z1kv.Errors.{Result, ok, err, Z1Error, IoKind, io, internal, not_found, permission_denied}
use z1kv.Effects.{Exec, pure, continue, ◌>>=◌, ◌>>◌}

pub record Directory : Type 0 where
  -- The content at the final path, `none` when there is no file.
  pub final : Option Bytes
  -- The content of the file at the final path has been synced.
  pub final_synced : Bool
  -- The last rename to the final path has been synced.
  pub rename_synced : Bool
  pub temp : Bytes
  pub temp_synced : Bool
  pub calls : ℕ

-- Only `NotFound` and `PermissionDenied` are tried again.
unfoldable pub is_transient : Z1Error → Bool
is_transient (io not_found) = true
is_transient (io permission_denied) = true
is_transient _ = false

module _ (faults : ℕ → Option IoKind) (torn : ℕ → ℕ) where
  unfoldable pub fs_call : (Directory → Directory) → Exec Directory (Unit {0})
  fs_call effect d = elim (faults d.calls) [
    | none ↦ (effect (record d { calls = suc d.calls }), ok tt)
    | some kind ↦ (record d { calls = suc d.calls }, err (io kind))
  ]

  unfoldable pub write_temp : Bytes → Exec Directory (Unit {0})
  write_temp bytes d = elim (faults d.calls) [
    | none ↦ (record d { temp = bytes; temp_synced = false; calls = suc d.calls }, ok tt)
    | some kind ↦ (
      record d { temp = take (torn d.calls) bytes; temp_synced = false; calls = suc d.calls },
      err (io kind),
    )
  ]

  -- `create_dir_all`, `File::create`, `write_all`
  unfoldable pub write_to_temp : Bytes → Exec Directory (Unit {0})
  unfolding fs_call write_temp
  write_to_temp bytes = do
    fs_call (λ d. d)
    fs_call (λ d. record d { temp = []; temp_synced = false })
    write_temp bytes

  -- `fsync_file` of the temporary file: `open`, `sync_all`
  unfoldable pub fsync_data : Exec Directory (Unit {0})
  unfolding fs_call
  fsync_data = do fs_call (λ d. d); fs_call (λ d. record d { temp_synced = true })

  -- `atomic_rename`, then `fsync_parent_dir`: `open`, `sync_all`
  unfoldable pub commit : Exec Directory (Unit {0})
  unfolding fs_call
  commit = do
    fs_call
        (λ d. record d { final = some d.temp; final_synced = d.temp_synced; rename_synced = false })
    fs_call (λ d. d)
    fs_call (λ d. record d { rename_synced = true })

  unfoldable pub write_durable_once : Bytes → Exec Directory (Unit {0})
  unfolding write_to_temp fsync_data commit
  write_durable_once bytes = do write_to_temp bytes; fsync_data; commit

-- What an attempt is followed by: another one after a transient error.
unfoldable pub after_attempt :
    (Z1Error → Exec Directory (Unit {0}))
    → Directory × Result (Unit {0})
    → Directory × Result (Unit {0})
unfolding is_transient
after_attempt again (d, ok _) = (d, ok tt)
after_attempt again (d, err e) = if is_transient e then again e d else (d, err e)

module _ (faults : ℕ → Option IoKind) (torn : ℕ → ℕ) where
  -- The loop over the attempts, with the error of the last one.
  unfoldable pub attempts : ℕ → Bytes → Z1Error → Exec Directory (Unit {0})
  unfolding write_durable_once after_attempt
  attempts zero bytes last_err d = (d, err last_err)
  attempts (suc n) bytes last_err d =
      after_attempt (attempts n bytes) (write_durable_once faults torn bytes d)

  unfoldable pub write_durable : Bytes → Exec Directory (Unit {0})
  unfolding attempts
  write_durable bytes = attempts 3 bytes internal

-- What a write leaves at the final path, for a client that looks at nothing else. A failing write may
-- have put the new file in place.
pub data Written : Type 0 where
  landed : Written
  refused : (replaced : Bool) → Z1Error → Written
