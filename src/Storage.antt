-- ===== src/Storage.antt =====
-- crates/storage: the write-ahead log, the pages and what is kept on them.
pub mod Wal
pub mod Replacer
pub mod PageWrite
pub mod Page
pub mod SlottedPage
pub mod Heap
pub mod Log
pub mod Recovery
pub mod Restart
