-- ===== src/Wal/Writer/Appends.antt =====
-- Appends and truncation of wal/mod.rs.
use z1kv.Common.{
  ℕ, zero, suc, ◌+◌, ◌≡◌, ◌≤◌, ◌<◌, ◌∙◌, refl, sym, ap, true, false, Option, none, Option-cases,
  Bool-cases, List, [], ◌∷◌, ◌++◌, length, drop, ltb, leb, ◌==◌, ◌⊎◌, inl, inr, length-append,
  take_all, arith,
}
use mathlib.Core.List.{append-nil}
use z1kv.Common.Map.{Map, get, insert, get-insert, remove, get-remove}
use z1kv.Common.Bytes.{Bytes}
use z1kv.Errors.{Result, ok, err, IoKind}
use z1kv.Effects.{lift, >>=-succeeds, pure, continue, ◌>>◌}
use z1kv.Wal.Record.{WalRecord, WalEntry, Codec, encode_record}
use z1kv.Wal.Writer.{
  sync_each, group_commit_strict, WalConfig, Inner, write_at, content_of, put_bytes, write_all,
  io_call, sync_all, append_encoded, flush_and_sync_file, append_synced, append_durable,
  append_queued, sync_policy, batch_size, truncate_before, remove_before,
}

-- The write position is the end of the open segment.
abbrev pub AtEnd : Inner → Type 0
AtEnd s = s.position ≡ length (content_of s.seq s.files)

drop_past : (n : ℕ) (xs : Bytes) → length xs ≤ n → drop n xs ≡ []
drop_past zero [] h = refl
drop_past zero (x ∷ xs) h = absurd (omega arith)
drop_past (suc n) [] h = refl
drop_past (suc n) (x ∷ xs) h = drop_past n xs (omega arith)

-- A write at the end appends.
pub write_at_end :
    (position : ℕ) (bytes content : Bytes)
    → position ≡ length content
    → write_at position bytes content ≡ content ++ bytes
unfolding write_at
write_at_end position bytes content e = rw (
  take_all position content (omega arith),
  drop_past (position + length bytes) content (omega arith),
  append-nil,
)

pub content_of-insert :
    (seq : ℕ) (b : Bytes) (files : Map Bytes) → content_of seq (insert seq b files) ≡ b
unfolding content_of
content_of-insert seq b files = ground (arith, get-insert seq seq b files)

abbrev pub no_faults : ℕ → Option IoKind
no_faults _ = none

abbrev pub nothing_torn : ℕ → ℕ
nothing_torn _ = 0

-- Without faults an append into a segment with room for it succeeds: the bytes stand behind the
-- segment's content, the write position is at its end again, and no other segment changes.
pub append_encoded-AtEnd :
    (bytes : Bytes) (s : Inner)
    → AtEnd s
    → s.segment_bytes + length bytes ≤ s.max_file_size
    → (s' : Inner) × (append_encoded no_faults nothing_torn bytes s ≡ (s', ok tt))
      × AtEnd s'
      × (content_of s.seq s'.files ≡ content_of s.seq s.files ++ bytes)
      × ((seq : ℕ) → (s.seq == seq) ≡ false → get seq s'.files ≡ get seq s.files)
      × (s'.seq ≡ s.seq)
      × (s'.files ≡ insert s.seq (content_of s.seq s.files ++ bytes) s.files)
unfolding append_encoded write_all put_bytes
append_encoded-AtEnd bytes s e room =
    let fits : ltb s.max_file_size (s.segment_bytes + length bytes) ≡ false = ground arith in
    let content : Bytes = write_at s.position bytes (content_of s.seq s.files) in
    let s' : Inner = record s {
      files = insert s.seq content s.files;
      position = s.position + length bytes;
      unsynced = true;
      calls = suc s.calls;
      segment_bytes = s.segment_bytes + length bytes;
    } in
    (
      s',
      rw fits,
      omega (
        arith,
        ap length (content_of-insert s.seq content s.files),
        ap length (write_at_end s.position bytes (content_of s.seq s.files) e),
        length-append {0} (content_of s.seq s.files) bytes,
      ),
      content_of-insert s.seq content s.files
          ∙ write_at_end s.position bytes (content_of s.seq s.files) e,
      λ seq other. ground (arith, get-insert s.seq seq content s.files),
      refl,
      ap (λ (x : Bytes). insert s.seq x s.files)
          (write_at_end s.position bytes (content_of s.seq s.files) e),
    )

module _ (faults : ℕ → Option IoKind) (torn : ℕ → ℕ) where
  flush_and_sync_file-synced :
      (s s' : Inner) → flush_and_sync_file faults torn s ≡ (s', ok tt) → s'.unsynced ≡ false
  unfolding flush_and_sync_file sync_all io_call
  flush_and_sync_file-synced s s' h = ground arith

  module _ (c : Codec) where
    append_synced-synced :
        (entry : WalEntry) (s s' : Inner)
        → append_synced faults torn c entry s ≡ (s', ok tt)
        → s'.unsynced ≡ false
    unfolding append_synced
    append_synced-synced entry s s' h =
        let (bytes, t, _, k) =
          >>=-succeeds (lift (encode_record c entry))
            (λ bytes. append_encoded faults torn bytes >> flush_and_sync_file faults torn) s s' h in
        let (_, u, _, l) =
          >>=-succeeds (append_encoded faults torn bytes) (λ _. flush_and_sync_file faults torn) t
            s' k in
        flush_and_sync_file-synced u s' l

    -- The durability boundary: when `append_durable` under a policy that syncs each write returns
    -- `Ok`, whatever calls of the file system fail before, no byte of the open segment is unsynced.
    pub append_durable-synced :
        (config : WalConfig) (txn_id : ℕ) (r : WalRecord) (s s' : Inner)
        → config.enabled ≡ true
        → sync_policy config ≡ sync_each
        → append_durable faults torn c config txn_id r s ≡ (s', ok tt)
        → s'.unsynced ≡ false
    unfolding append_durable
    append_durable-synced config txn_id r s s' on each h =
        append_synced-synced (record { txn_id = txn_id; record_of = r }) s s'
          (sym (rw (on, each, append_durable)) ∙ h)

    -- Under group commit `append_durable` returns `Ok` for a record that stands in the queue alone, as
    -- long as the batch is not full: no file and no file system call has seen it.
    pub append_durable-queues :
        (config : WalConfig) (txn_id : ℕ) (r : WalRecord) (s : Inner)
        → config.enabled ≡ true
        → sync_policy config ≡ group_commit_strict
        → suc (length s.queue) < batch_size config
        → append_durable faults torn c config txn_id r s
          ≡ (record s { queue = s.queue ++ record { txn_id = txn_id; record_of = r } ∷ [] }, ok tt)
    unfolding append_durable append_queued
    append_durable-queues config txn_id r s on group small =
        rw (on, group, append_durable)
          (ground (arith, length-append s.queue (record { txn_id = txn_id; record_of = r } ∷ [])))

List-cases {ℓ} : {A : Type ℓ} (l : List A) → (l ≡ []) ⊎ ((x : A) × (xs : List A) × (l ≡ x ∷ xs))
List-cases [] = inl refl
List-cases (x ∷ xs) = inr (x, xs, refl)

-- Whatever calls of the file system fail, truncation changes no segment from the position on.
module _ (faults : ℕ → Option IoKind) (torn : ℕ → ℕ) (pos seq : ℕ) (later : pos ≤ seq) where
  remove_before-keeps :
      (files : Map Bytes) (s : Inner)
      → get seq (remove_before faults torn pos files s).0.files ≡ get seq s.files
  unfolding remove_before io_call
  remove_before-keeps [] s = refl
  remove_before-keeps ((n, b) ∷ files) s = elim (Bool-cases (leb pos n)) [
    | inl stays ↦ rw (stays, remove_before) (remove_before-keeps files s)
    | inr goes ↦ elim (Option-cases (faults s.calls)) [
      | inr (kind, fails) ↦ rw (goes, remove_before) (rw (fails, io_call) refl)
      | inl works ↦
          let t : Inner = record s { calls = suc s.calls; files = remove n s.files } in
          rw (goes, remove_before)
            (rw (works, io_call)
              (counted (remove_before faults torn pos files t)
                ∙ remove_before-keeps files t
                ∙ ground (arith, get-remove n seq s.files, goes, later)))
    ]
  ]
    where
      counted :
          (p : Inner × Result ℕ)
          → get seq (continue (λ n. pure (n + 1)) p).0.files ≡ get seq p.0.files
      counted (s, ok n) = refl
      counted (s, err x) = refl

  pub truncate_before-keeps :
      (s : Inner) → get seq (truncate_before faults torn pos s).0.files ≡ get seq s.files
  unfolding truncate_before io_call
  truncate_before-keeps s = elim (List-cases s.queue) [
    | inr (e, es, some_left) ↦ rw (some_left, truncate_before) refl
    | inl none_left ↦ elim (Option-cases (faults s.calls)) [
      | inr (kind, fails) ↦ rw (none_left, truncate_before) (rw (fails, io_call) refl)
      | inl works ↦
          rw (none_left, truncate_before)
            (rw (works, io_call) (remove_before-keeps s.files (record s { calls = suc s.calls })))
    ]
  ]
