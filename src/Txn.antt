-- ===== src/Txn.antt =====
-- txn/: the commit protocol of the engine.
pub mod Protocol
