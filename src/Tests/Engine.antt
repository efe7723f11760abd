-- ===== src/Tests/Engine.antt =====
-- Runs of the engine on a small database.
use z1kv.Common.{ℕ, ◌≡◌, ◌<◌, ◌-◌, ◌%◌, ◌^◌, refl, true, false, Option, none, some, [], ◌∷◌, arith}
use z1kv.Common.Map.{get, contains_key}
use z1kv.Common.Bytes.{Bytes}
use z1kv.Errors.{ok}
use z1kv.DurableWriter.{landed}
use z1kv.Mvcc.Types.{VisibilityConfig, TxnSnapshot, snapshot, new_with_config}
use z1kv.Mvcc.Prune.{u64_mod}
use z1kv.Mvcc.Cache.{new_snapshot_cache}
use z1kv.Mvcc.Manager.{get_begin_ts}
use z1kv.Mvcc.Manager.Wf.{new-Wf}
use z1kv.Store.Types.{Z1Key, Z1Entry, put_entry, is_visible_at_commit}
use z1kv.Store.Mem.{new_store, async}
use z1kv.Store.RecentFlush.{new_cache}
use z1kv.Wal.Record as record_kind
use z1kv.Wal.Record.{WalRecord, WalEntry, Codec}
use z1kv.Wal.Writer.{append_durable, latest_writer}
use z1kv.Wal.Writer.Appends.{no_faults, nothing_torn}
use z1kv.Engine.{Z1Config, World, Engine, on_wal}
use z1kv.Engine.Reads.{sees, get_at, scan_at, snapshot_now}
use z1kv.Mvcc.Filter.{is_visible}
use z1kv.Store.Disk.{to_z1_entry}
use z1kv.Engine.Run.{Reach, initial, later, begins, puts, commits}
use z1kv.Engine.Run.Sound.{Sound}
use z1kv.Engine.Run.Keeps.{Reach-current}
use z1kv.Wal.Record.{frame, encode_record}
use z1kv.Engine.Reads.Isolated.{write_entry-isolated}
use z1kv.Engine.Reads.Hides.{compacted, scan_at-hides}
use z1kv.Engine.Reads.Ties.{overwritten, get_at-scan_at}
use z1kv.Engine.Transactions.{Clock, begin_txn, write_entry, put, commit}
use z1kv.Engine.Transactions.Begins.{Ready, Began, begin_txn-Began}
use z1kv.Engine.Transactions.Commits.{Ended, commit-Ended}
use z1kv.Tests.Wal.{sum, config}
use z1kv.Tests.Durable.{patch_format, state_codec, no_checkpoints}
use z1kv.Tests.Layers.{no_patches, readable, all_land, removes}

program : Unit {0}
unfolding is_visible_at_commit put_entry append_durable get_begin_ts get new_store new_with_config
    latest_writer
program = tt

-- Begin records are the id, commit records the id and the timestamps.
abbrev pub encode_commit : ℕ → WalRecord → Option Bytes
encode_commit id (record_kind.commit ts ins) = some (id ∷ ts ∷ ins ∷ [])
encode_commit id record_kind.begin = some (id ∷ [])
encode_commit id _ = none

abbrev pub decode_commit : Bytes → Option WalEntry
decode_commit (id ∷ ts ∷ ins ∷ []) =
    some (record { txn_id = id; record_of = record_kind.commit ts ins })
decode_commit (id ∷ []) = some (record { txn_id = id; record_of = record_kind.begin })
decode_commit _ = none

pub decode-encode_commit :
    (id : ℕ) (r : WalRecord) (b : Bytes)
    → encode_commit id r ≡ some b
    → decode_commit b ≡ some (record { txn_id = id; record_of = r })
decode-encode_commit id (record_kind.commit ts ins) b h =
    let same : b ≡ id ∷ ts ∷ ins ∷ [] = ground arith in rw same refl
decode-encode_commit id (record_kind.put cf k v) b h = cc
decode-encode_commit id record_kind.begin b h =
    let same : b ≡ id ∷ [] = ground arith in rw same refl
decode-encode_commit id record_kind.rollback b h = cc
decode-encode_commit id (record_kind.checkpoint n) b h = cc

abbrev pub commit_codec : Codec
commit_codec = record {
  encode = λ e. encode_commit e.txn_id e.record_of;
  decode = decode_commit;
  crc = λ b. sum b % 2 ^ 32;
  decode-encode = λ e b h. decode-encode_commit e.txn_id e.record_of b h;
  crc-lt = λ b. omega arith;
}

abbrev pub world : World
world = record {
  faults = no_faults;
  torn = nothing_torn;
  codec = commit_codec;
  wal_config = config;
  elapsed = false;
  disk_format = patch_format;
  l2_broken = readable;
  l3_broken = readable;
  patch_write = all_land;
  removal = removes;
  state_codec = state_codec;
  checkpoint_file = landed;
  checkpoint_pointer = landed;
}

abbrev pub limits : VisibilityConfig
limits = record { max_history_entries = 10; history_ttl_secs = 60 }

abbrev pub settings : Z1Config
settings = record {
  visibility = limits;
  strict_mode = true;
  checkpoint_wal_size_threshold = 0;
  l2_compaction_threshold = 0;
}

abbrev pub engine : Engine
engine = record {
  config = settings;
  mvcc = new_with_config limits;
  snapshot_cache = new_snapshot_cache;
  txn_snapshots = [];
  layers = record {
    l1 = record (new_store 1000 async) { wal = some (latest_writer config []) };
    l2 = no_patches;
    l3 = no_patches;
    recent_flush = new_cache;
    flush_epoch = 0;
    next_patch_id = 1;
  };
  checkpoints = no_checkpoints;
  txn_counter = 1;
}

engine-Ready : Ready engine
unfolding program
engine-Ready = record {
  wf = new-Wf limits;
  ahead = omega arith;
  active_below = λ k m found. absurd (ground arith);
}

ids_left : engine.txn_counter < u64_mod - 1
ids_left = omega arith

begin_txn-Began_example : Began engine engine-Ready ids_left (begin_txn engine)
begin_txn-Began_example = begin_txn-Began engine engine-Ready ids_left

abbrev started : Engine
started = (begin_txn engine).0

abbrev pub clock : Clock
clock = record { inserted_at = 50; commit_ts = 60; prune_ms = 61; checkpoint_ms = 62 }

abbrev commit_record : WalRecord
commit_record = record_kind.commit 1 50

abbrev logged : Engine
logged =
    (on_wal (append_durable no_faults nothing_torn commit_codec config 1 commit_record) started).0

is_started : get_begin_ts 1 started.mvcc ≡ some 1
unfolding program begin_txn
is_started = refl

is_logged :
    on_wal (append_durable no_faults nothing_torn commit_codec config 1 commit_record) started
    ≡ (logged, ok tt)
unfolding program begin_txn
is_logged = refl

commit-Ended_example : Ended world clock 1 started.mvcc (commit world clock 1 started)
commit-Ended_example = commit-Ended world clock 1 started logged 1 is_started is_logged

abbrev zk : Z1Key
zk = record { cf = 0; key = 107 ∷ [] }

-- A snapshot of before the transaction 1, and one of after its commit.
abbrev before : TxnSnapshot
before = record { snapshot_id = 0; active_txns = []; isolation = snapshot; commit_ts_map = [] }

abbrev after : TxnSnapshot
after = record {
  snapshot_id = 60;
  active_txns = [];
  isolation = snapshot;
  commit_ts_map = (1, 60) ∷ [];
}

abbrev written : Z1Entry
written = put_entry zk 1 (118 ∷ []) 40

not_seen : sees before written ≡ false
unfolding program
not_seen = refl

write_entry-isolated_example :
    ((get_at world before 0 (107 ∷ []) (write_entry world written started).0).1
      ≡ (get_at world before 0 (107 ∷ []) started).1)
    × ((scan_at world before 0 [] none (write_entry world written started).0).1
        ≡ (scan_at world before 0 [] none started).1)
write_entry-isolated_example =
    write_entry-isolated world before written not_seen started 0 (107 ∷ []) [] none

is_seen : sees after (put_entry zk 1 (119 ∷ []) 41) ≡ true
unfolding program
is_seen = refl

get_at-scan_at_example :
    ((get_at world after 0
        (107 ∷ [])
        (overwritten world after 0 (107 ∷ []) (118 ∷ []) (119 ∷ []) 1 41 engine)).1
      ≡ ok (some (118 ∷ [])))
    × ((scan_at world after 0
          (107 ∷ [])
          none
          (overwritten world after 0 (107 ∷ []) (118 ∷ []) (119 ∷ []) 1 41 engine)).1
        ≡ ok ((107 ∷ [], 119 ∷ []) ∷ []))
get_at-scan_at_example =
    get_at-scan_at world after 0 (107 ∷ []) (118 ∷ []) (119 ∷ []) 1 41 is_seen engine

-- Two committed versions in L2, and the snapshot between them.
not_seen_yet :
    sees after (to_z1_entry 0 (record { key = 107 ∷ []; value = some (119 ∷ []); txn_id = 2 }))
    ≡ false
unfolding program
not_seen_yet = refl

seen_before :
    sees after (to_z1_entry 0 (record { key = 107 ∷ []; value = some (118 ∷ []); txn_id = 1 }))
    ≡ true
unfolding program
seen_before = refl

scan_at-hides_example :
    ((get_at world after 0
        (107 ∷ [])
        (compacted world after 0 (107 ∷ []) (118 ∷ []) (119 ∷ []) 1 2 engine)).1
      ≡ ok (some (118 ∷ [])))
    × ((scan_at world after 0
          (107 ∷ [])
          none
          (compacted world after 0 (107 ∷ []) (118 ∷ []) (119 ∷ []) 1 2 engine)).1
        ≡ ok [])
scan_at-hides_example =
    scan_at-hides world after 0 (107 ∷ []) (118 ∷ []) (119 ∷ []) 1 2 (omega arith) seen_before
      not_seen_yet engine

pub engine-Sound : Sound engine
engine-Sound = record {
  below = record {
    wf = engine-Ready.wf;
    ahead = engine-Ready.ahead;
    active_below = engine-Ready.active_below;
  };
  counter_u64 = omega arith;
  fresh = λ c found. absurd (cc (found));
}

-- Transaction 1 begins, puts and commits.
abbrev put_done : Engine
put_done = (put world 0 (107 ∷ []) (118 ∷ []) 1 40 started).0

abbrev finished : Engine
finished = (commit world clock 1 put_done).0

finished-Reach : Reach world engine finished
finished-Reach =
    later (later (later initial begins) (puts 0 (107 ∷ []) (118 ∷ []) 1 40)) (commits clock 1)

Reach-current_example :
    Sound finished
    × ((snap : TxnSnapshot) × ((snapshot_now world finished).1 ≡ ok snap)
        × ((created : ℕ)
            → is_visible snap created none ≡ contains_key created finished.mvcc.committed_history))
Reach-current_example =
    Reach-current world {e = engine} {out = finished} engine-Sound finished-Reach
