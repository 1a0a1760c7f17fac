-- ===== src/Storage/Wal.antt =====
-- crates/storage/src/wal.rs: log records, their bytes, and the scan of a segment.
pub mod Record
pub mod Segment
