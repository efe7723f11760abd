-- ===== src/Tests/Durable.antt =====
-- Runs of the file formats, the durable writer and the checkpoints with small encodings.
use z1kv.Common.{
  ℕ, ◌≡◌, ◌%◌, ◌^◌, refl, ap, true, false, Option, none, some, List, [], ◌∷◌, ◌++◌, length, take,
  drop, take-append, drop-append, if◌then◌else◌, ◌==◌, arith,
}
use z1kv.Common.Map.{Map}
use z1kv.Common.Bytes.{Bytes}
use z1kv.Errors.{ok, IoKind, io, other, not_found}
use z1kv.Codec.DiskFormat.{DiskFormat, to_disk_bytes, from_disk_bytes}
use z1kv.Codec.DiskFormat.Laws.{from_disk_bytes-to_disk_bytes}
use z1kv.DurableWriter.{Directory, landed, refused, write_durable}
use z1kv.DurableWriter.Atomic.{Replaced, Durable, write_durable-Replaced}
use z1kv.Store.Types.{PatchEntry, Z1PatchFormatV4, sparse_of}
use z1kv.Wal.Checkpoint.{CheckpointState, StateCodec, CheckpointDir, write}
use z1kv.Wal.Checkpoint.Laws.{Checkpointed, write-Checkpointed}
use z1kv.Tests.Wal.{sum}

program : Unit {0}
unfolding to_disk_bytes from_disk_bytes
program = tt

-- Patches of one entry: the transaction, the length of the key, the key and the value.
abbrev encode_value : ℕ → Bytes → Option Bytes → Option Bytes
encode_value txn_id key none = none
encode_value txn_id key (some value) = some (txn_id ∷ length key ∷ (key ++ value))

abbrev encode_entries : List PatchEntry → Option Bytes
encode_entries [] = none
encode_entries (e ∷ []) = encode_value e.txn_id e.key e.value
encode_entries (e ∷ _ ∷ _) = none

abbrev encode_patch : Z1PatchFormatV4 → Option Bytes
encode_patch (sparse_of entries) = encode_entries entries

abbrev decode_patch : Bytes → Option Z1PatchFormatV4
decode_patch [] = none
decode_patch (t ∷ []) = none
decode_patch (t ∷ n ∷ rest) =
    some (sparse_of (record { key = take n rest; value = some (drop n rest); txn_id = t } ∷ []))

decode-encode_value :
    (t : ℕ) (key : Bytes) (value : Option Bytes) (b : Bytes)
    → encode_value t key value ≡ some b
    → decode_patch b ≡ some (sparse_of (record { key = key; value = value; txn_id = t } ∷ []))
decode-encode_value t key none b h = cc
decode-encode_value t key (some value) b h =
    let same : b ≡ t ∷ length key ∷ (key ++ value) = ground arith in
    rw (same, take-append key value, drop-append key value) refl

pub decode-encode_patch :
    (f : Z1PatchFormatV4) (b : Bytes) → encode_patch f ≡ some b → decode_patch b ≡ some f
decode-encode_patch (sparse_of []) b h = cc
decode-encode_patch (sparse_of (e ∷ [])) b h = decode-encode_value e.txn_id e.key e.value b h
decode-encode_patch (sparse_of (e ∷ d ∷ es)) b h = cc

abbrev pub patch_format : DiskFormat Z1PatchFormatV4
patch_format = record {
  magic = 90 ∷ 49 ∷ 80 ∷ 65 ∷ 84 ∷ 52 ∷ [];
  version = 4;
  min_readable_version = 3;
  encode = encode_patch;
  decode = decode_patch;
  crc = λ b. sum b % 2 ^ 32;
  magic-length = refl;
  version-lt = omega arith;
  readable = omega arith;
  decode-encode = decode-encode_patch;
  crc-lt = λ b. omega arith;
}

abbrev one_entry : Z1PatchFormatV4
one_entry = sparse_of (record { key = 107 ∷ []; value = some (118 ∷ []); txn_id = 7 } ∷ [])

abbrev file : Bytes
file =
    90 ∷ 49 ∷ 80 ∷ 65 ∷ 84 ∷ 52 ∷ 4 ∷ 0 ∷ 0 ∷ 0 ∷ 233 ∷ 0 ∷ 0 ∷ 0 ∷ 4 ∷ 0 ∷ 0 ∷ 0 ∷ 7 ∷ 1 ∷ 107
    ∷ 118 ∷ []

writes : to_disk_bytes patch_format one_entry ≡ ok file
unfolding program
writes = refl

from_disk_bytes-to_disk_bytes_example : from_disk_bytes patch_format (file ++ 9 ∷ []) ≡ ok one_entry
from_disk_bytes-to_disk_bytes_example =
    from_disk_bytes-to_disk_bytes patch_format one_entry file (9 ∷ []) writes

-- The rename fails once, and the second attempt succeeds.
abbrev rename_fails : ℕ → Option IoKind
rename_fails call = if call == 2 then some not_found else none

abbrev half : ℕ → ℕ
half _ = 1

abbrev directory : Directory
directory = record {
  final = some (1 ∷ []);
  final_synced = true;
  rename_synced = true;
  temp = [];
  temp_synced = false;
  calls = 0;
}

write_durable-Replaced_example :
    Replaced (2 ∷ 3 ∷ []) directory (write_durable rename_fails half (2 ∷ 3 ∷ []) directory).0
    × Durable
        (2 ∷ 3 ∷ [])
        (write_durable rename_fails half (2 ∷ 3 ∷ []) directory).0
        (write_durable rename_fails half (2 ∷ 3 ∷ []) directory).1
write_durable-Replaced_example = write_durable-Replaced rename_fails half (2 ∷ 3 ∷ []) directory

-- The three numbers of a state, then its history.
abbrev flatten : Map ℕ → Bytes
flatten [] = []
flatten ((k, v) ∷ m) = k ∷ v ∷ flatten m

abbrev unflatten : Bytes → Map ℕ
unflatten [] = []
unflatten (k ∷ []) = []
unflatten (k ∷ v ∷ bs) = (k, v) ∷ unflatten bs

unflatten-flatten : (m : Map ℕ) → unflatten (flatten m) ≡ m
unflatten-flatten [] = refl
unflatten-flatten ((k, v) ∷ m) = ap (λ (t : Map ℕ). (k, v) ∷ t) (unflatten-flatten m)

abbrev decode_checkpoint : Bytes → Option CheckpointState
decode_checkpoint (a ∷ b ∷ c ∷ bs) = some (record {
  checkpoint_id = a;
  committed_txn = b;
  timestamp_ms = c;
  committed_history = unflatten bs;
})
decode_checkpoint _ = none

abbrev flat : CheckpointState → Bytes
flat s = s.checkpoint_id ∷ s.committed_txn ∷ s.timestamp_ms ∷ flatten s.committed_history

pub decode-flat :
    (s : CheckpointState) (b : Bytes)
    → ◌≡◌ {A = Option Bytes} (some (flat s)) (some b)
    → decode_checkpoint b ≡ some s
decode-flat s b h =
    let same : b ≡ flat s = ground arith in rw (same, unflatten-flatten s.committed_history) refl

abbrev pub state_codec : StateCodec
state_codec = record {
  encode_state = λ s. some (flat s);
  decode_state = decode_checkpoint;
  crc32 = λ b. sum b % 2 ^ 32;
  decode_state-encode_state = decode-flat;
  crc32-lt = λ b. omega arith;
}

abbrev state : CheckpointState
state = record {
  checkpoint_id = 5;
  committed_txn = 5;
  timestamp_ms = 99;
  committed_history = (5, 6) ∷ [];
}

abbrev pub no_checkpoints : CheckpointDir
no_checkpoints = record { latest = none; checkpoints = [] }

write-Checkpointed_example :
    Checkpointed state_codec state no_checkpoints
      (write state_codec landed (refused true (io other)) state no_checkpoints)
write-Checkpointed_example =
    write-Checkpointed state_codec state landed (refused true (io other)) no_checkpoints
      (omega arith)
