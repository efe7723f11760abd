-- ===== src/Mvcc.antt =====
-- mvcc/: transactions, snapshots and visibility. The state and its operations are in the children;
-- the proofs are in the children of these.
pub mod Types
pub mod Filter
pub mod Conflict
pub mod Prune
pub mod Manager
pub mod Cache
