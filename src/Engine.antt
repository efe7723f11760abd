-- ===== src/Engine.antt =====
-- txn/mod.rs and config.rs: the engine over its parts. `World` gives what the parts take from outside: the
-- outcomes of file system calls and the codecs. The log is shared with L1 and stands in it. The readings of
-- the clock are arguments. Each method is one step; what other threads do between the accesses of a method
-- is not modelled.
pub mod Reads
pub mod Transactions
pub mod Open
pub mod Run
use z1kv.Common.{ℕ, ◌+◌, ◌/◌, ◌%◌, Bool, Option, none, some, List, [], ◌∷◌, length}
use z1kv.Common.Map.{Map}
use z1kv.Common.Bytes.{Bytes}
use z1kv.Errors.{Result, ok, err, IoKind, wal}
use z1kv.Effects.{Exec}
use z1kv.Codec.DiskFormat.{DiskFormat}
use z1kv.DurableWriter.{Written}
use z1kv.Mvcc.Types.{TxnSnapshot, VisibilityManager, VisibilityConfig}
use z1kv.Mvcc.Cache.{SnapshotCache}
use z1kv.Store.Types.{Z1PatchFormatV4}
use z1kv.Store.Disk.{Removal}
use z1kv.Store.Disk.Paths.{PatchPath}
use z1kv.Store.Flush.{FlushEngine}
use z1kv.Wal.Record.{Codec}
use z1kv.Wal.Writer.{Inner, WalConfig}
use z1kv.Wal.Checkpoint.{StateCodec, CheckpointDir}

pub record Z1Config : Type 0 where
  pub visibility : VisibilityConfig
  pub strict_mode : Bool
  pub checkpoint_wal_size_threshold : ℕ
  pub l2_compaction_threshold : ℕ

pub record World : Type 0 where
  pub faults : ℕ → Option IoKind
  pub torn : ℕ → ℕ
  pub codec : Codec
  pub wal_config : WalConfig
  pub elapsed : Bool
  pub disk_format : DiskFormat Z1PatchFormatV4
  pub l2_broken : PatchPath → Option IoKind
  pub l3_broken : PatchPath → Option IoKind
  pub patch_write : ℕ → Written
  pub removal : ℕ → Removal
  pub state_codec : StateCodec
  pub checkpoint_file : Written
  pub checkpoint_pointer : Written

-- `Z1Kv`
pub record Engine : Type 0 where
  pub config : Z1Config
  pub mvcc : VisibilityManager
  pub snapshot_cache : SnapshotCache
  pub txn_snapshots : Map TxnSnapshot
  pub layers : FlushEngine
  pub checkpoints : CheckpointDir
  pub txn_counter : ℕ

-- `cf.to_be_bytes()`, then the key.
unfoldable pub conflict_key : ℕ → Bytes → Bytes
conflict_key cf key = cf / 256 % 256 ∷ cf % 256 ∷ key

abbrev pub on_layers : {A : Type 0} → Exec FlushEngine A → Exec Engine A
on_layers m e = (record e { layers = (m e.layers).0 }, (m e.layers).1)

-- The engine's log is always attached.
abbrev pub with_log : Inner → Engine → Engine
with_log log e = record e {
  layers = record e.layers { l1 = record e.layers.l1 { wal = some log } };
}

abbrev pub on_wal : {A : Type 0} → Exec Inner A → Exec Engine A
on_wal m e = elim e.layers.l1.wal [
  | none ↦ (e, err wal)
  | some log ↦ (with_log (m log).0 e, (m log).1)
]
