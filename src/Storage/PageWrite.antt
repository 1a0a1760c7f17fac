-- ===== src/Storage/PageWrite.antt =====
-- `PageWriteGuard::write` of crates/storage/src/buffer.rs and the bytes of crates/storage/src/page.rs:
-- a write is logged with the bytes before it, then copied, and the page takes the record's lsn.
-- The log behind the guard is an interface.
pub mod Bytes
use simple_rdbms.Common.{ℕ, ◌+◌, ◌%◌, ◌^◌, List, ◌++◌, length, take, drop, slice, Result, ok, err}
use simple_rdbms.Common.Bytes.{to_le_bytes, from_le_bytes}
use simple_rdbms.Ids.{PageId, TxnId, Lsn}
use simple_rdbms.Storage.Wal.Record.{LogRecordKind, update}

abbrev pub page_size : ℕ
page_size = 4096

-- `bytes[at..at + patch.len()].copy_from_slice(patch)`
unfoldable pub overwrite : ℕ → List ℕ → List ℕ → List ℕ
overwrite at patch bytes = take at bytes ++ (patch ++ drop (at + length patch) bytes)

unfoldable pub set_page_lsn : List ℕ → Lsn → List ℕ
unfolding overwrite to_le_bytes
set_page_lsn bytes lsn = overwrite 4 (to_le_bytes 8 lsn) bytes

-- A page under its write guard, with the log that its writes go to.
pub record Guarded (Log : Type 0) : Type 0 where
  pub page_id : PageId
  pub bytes : List ℕ
  pub log : Log

module _ {Log : Type 0} {StorageError : Type 0}
    (append_log : Log → TxnId → LogRecordKind → Result StorageError Lsn × Log) where
  unfoldable pub write :
      Guarded Log → TxnId → ℕ → List ℕ → Result StorageError (Unit {0}) × Guarded Log
  unfolding overwrite set_page_lsn
  write guard txn_id offset patch =
      let before = take (length patch) (drop offset guard.bytes) in
      let (appended, log') =
        append_log guard.log txn_id (update guard.page_id (offset % 2 ^ 16) before patch) in
      elim appended [
        | err e ↦ (err e, record guard { log = log' })
        | ok lsn ↦ (
          ok tt,
          record guard {
            log = log';
            bytes = set_page_lsn (overwrite offset patch guard.bytes) lsn;
          },
        )
      ]
