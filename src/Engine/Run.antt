-- ===== src/Engine/Run.antt =====
-- The runs of an engine of txn/mod.rs: its operations one after the other, in any order.
pub mod Sound
pub mod Transactions
pub mod Keeps
use z1kv.Common.{ℕ, Option}
use z1kv.Common.Bytes.{Bytes}
use z1kv.Mvcc.Types.{TxnSnapshot}
use z1kv.Store.Types.{Z1Entry}
use z1kv.Engine.{World, Engine}
use z1kv.Engine.Reads.{get_at, get_now, get_for_txn, scan_at, scan_now}
use z1kv.Engine.Transactions.{
  Clock, begin_txn, commit, rollback, put, delete, checkpoint, flush, flush_now, compact,
}

-- An operation, on whatever it returns.
pub data Step (w : World) (e : Engine) : Engine → Type 0 where
  begins : Step w e (begin_txn e).0
  commits : (clock : Clock) (txn_id : ℕ) → Step w e (commit w clock txn_id e).0
  rolls_back : (txn_id : ℕ) → Step w e (rollback w txn_id e).0
  puts : (cf : ℕ) (key value : Bytes) (txn_id ts : ℕ) → Step w e (put w cf key value txn_id ts e).0
  deletes : (cf : ℕ) (key : Bytes) (txn_id ts : ℕ) → Step w e (delete w cf key txn_id ts e).0
  gets : (cf : ℕ) (key : Bytes) → Step w e (get_now w cf key e).0
  gets_at : (snap : TxnSnapshot) (cf : ℕ) (key : Bytes) → Step w e (get_at w snap cf key e).0
  gets_for : (cf : ℕ) (key : Bytes) (txn_id : ℕ) → Step w e (get_for_txn w cf key txn_id e).0
  scans :
      (cf : ℕ) (start : Bytes) (end_key : Option Bytes) → Step w e (scan_now w cf start end_key e).0
  scans_at :
      (snap : TxnSnapshot) (cf : ℕ) (start : Bytes) (end_key : Option Bytes)
      → Step w e (scan_at w snap cf start end_key e).0
  flushes : Step w e (flush w e).0
  flushes_now : Step w e (flush_now w e).0
  compacts : (watermark : ℕ) → Step w e (compact w watermark e).0
  checkpoints : (now_ms : ℕ) → Step w e (checkpoint w now_ms e).0

pub data Reach (w : World) (s : Engine) : Engine → Type 0 where
  initial : Reach w s s
  later : {t u : Engine} → Reach w s t → Step w t u → Reach w s u
