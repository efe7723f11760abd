-- ===== src/Tests.antt =====
-- The modelled operations at concrete inputs.
pub mod Mvcc
pub mod Prune
pub mod Store
pub mod Mem
pub mod Recovery
pub mod Wal
pub mod Durable
pub mod Layers
pub mod Engine
pub mod Opening
pub mod Conflict
pub mod Reopen
pub mod Lock
pub mod Threads
