-- ===== src/Codec.antt =====
-- codec/: the framework of the on-disk formats, and the clock.
pub mod DiskFormat
pub mod Timestamp
