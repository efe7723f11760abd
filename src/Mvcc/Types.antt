-- ===== src/Mvcc/Types.antt =====
-- The data of mvcc/visibility.rs: transaction metadata, snapshots, the manager's state.
-- `HashSet<Vec<u8>>` and `BTreeSet<TxnId>` are lists without repetition, in any order.
use z1kv.Common.{ℕ, Bool, false, ◌||◌, Option, none, some, List, [], ◌∷◌, ◌==◌, if◌then◌else◌}
use z1kv.Common.Map.{Map}
use z1kv.Common.Bytes.{Bytes, bytes_eq}

pub data TxnStatus : Type 0 where
  active committed aborted : TxnStatus

pub record TxnMeta : Type 0 where
  pub begin_ts : ℕ
  pub commit_ts : Option ℕ
  pub status : TxnStatus
  pub read_keys : List Bytes
  pub written_keys : List Bytes

unfoldable pub new_meta : ℕ → TxnMeta
new_meta begin_ts = record {
  begin_ts = begin_ts;
  commit_ts = none;
  status = active;
  read_keys = [];
  written_keys = [];
}

unfoldable pub contains_bytes : Bytes → List Bytes → Bool
contains_bytes k [] = false
contains_bytes k (j ∷ s) = bytes_eq j k || contains_bytes k s

unfoldable pub insert_bytes : Bytes → List Bytes → List Bytes
unfolding contains_bytes
insert_bytes k s = if contains_bytes k s then s else k ∷ s

unfoldable pub meta_record_read : Bytes → TxnMeta → TxnMeta
meta_record_read k m = record m { read_keys = insert_bytes k m.read_keys }

unfoldable pub meta_record_write : Bytes → TxnMeta → TxnMeta
meta_record_write k m = record m { written_keys = insert_bytes k m.written_keys }

unfoldable pub meta_commit : ℕ → TxnMeta → TxnMeta
meta_commit ts m = record m { status = committed; commit_ts = some ts }

pub data IsolationLevel : Type 0 where
  read_committed repeatable_read snapshot : IsolationLevel

pub record TxnSnapshot : Type 0 where
  pub snapshot_id : ℕ
  pub active_txns : List ℕ
  pub isolation : IsolationLevel
  pub commit_ts_map : Map ℕ

unfoldable pub contains : ℕ → List ℕ → Bool
contains k [] = false
contains k (j ∷ s) = (j == k) || contains k s

pub record VisibilityConfig : Type 0 where
  pub max_history_entries : ℕ
  pub history_ttl_secs : ℕ

pub record VisibilityManager : Type 0 where
  pub committed_txn : ℕ
  pub replay_watermark : ℕ
  pub active_txns : Map TxnMeta
  -- txn_id ↦ (commit_ts, inserted_at)
  pub committed_history : Map (ℕ × ℕ)
  pub committed_ts_shadow : Map ℕ
  pub commit_seq : ℕ
  pub last_ttl_check_seq : ℕ
  pub last_ttl_check_ms : ℕ
  pub config : VisibilityConfig

unfoldable pub new_with_config : VisibilityConfig → VisibilityManager
new_with_config config = record {
  committed_txn = 0;
  replay_watermark = 0;
  active_txns = [];
  committed_history = [];
  committed_ts_shadow = [];
  commit_seq = 0;
  last_ttl_check_seq = 0;
  last_ttl_check_ms = 0;
  config = config;
}
