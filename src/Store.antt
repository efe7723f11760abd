-- ===== src/Store.antt =====
-- store/: versions, the layers that hold them, and the movement between the layers.
pub mod Types
pub mod Gc
pub mod Mem
pub mod Disk
pub mod RecentFlush
pub mod Flush
