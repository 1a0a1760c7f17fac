-- ===== src/Storage/Recovery/History.antt =====
-- What a transaction and those beside it do to the pages and the log before it is undone.
use simple_rdbms.Common.{
  ℕ, ◌+◌, ◌≤◌, ◌<◌, ◌≡◌, ◌≢◌, true, some, List, [], ◌∷◌, length, if◌then◌else◌,
}
use simple_rdbms.Common.Map.{nat_eq, get, insert}
use simple_rdbms.Ids.{PageId, TxnId, Lsn}
use simple_rdbms.Storage.Wal.Record.{LogRecordKind, begin, abort, alloc_page}
use simple_rdbms.Storage.PageWrite.{page_size, Guarded, write}
use simple_rdbms.Storage.Log.{Log, append}
use simple_rdbms.Storage.Recovery.{Pool, RecoveryError, page_bytes, undo_loop}
use simple_rdbms.Storage.Recovery.Bytes.{Pages, byte, IsSized}
use simple_rdbms.Storage.Recovery.Chain.{Ranges, is_held}

abbrev pub log_append : Log → TxnId → LogRecordKind → Log
log_append log t kind = (append {StorageError = RecoveryError} log t kind).1

-- The page under a write guard.
abbrev pub guarded : Pool → PageId → Guarded Log
guarded s p = record { page_id = p; bytes = page_bytes s.written p; log = s.log }

-- The pool after a write through the guard.
abbrev pub after_write : Pool → TxnId → PageId → ℕ → List ℕ → Pool
after_write s t p offset patch =
    let guard = (write (append {StorageError = RecoveryError}) (guarded s p) t offset patch).1 in
    record s { written = insert p guard.bytes s.written; log = guard.log }

-- The pool after `new_page` of the buffer pool has allocated a page for the transaction.
abbrev pub after_new_page : Pool → TxnId → Pool
after_new_page s t = record s {
  next_page_id = s.next_page_id + 1;
  log = log_append s.log t (alloc_page s.next_page_id);
}

-- The pool after other transactions have logged a record, and changed the pages.
abbrev pub after_others : Pool → TxnId → LogRecordKind → PageId → Pages → Pool
after_others s u kind next_page_id written = record {
  next_page_id = next_page_id;
  written = written;
  log = log_append s.log u kind;
}

-- A run of the transaction `t`: the pool it comes to, the bytes that its undo has to leave, and the
-- ranges that it has written. It begins, allocates pages, and writes behind the headers of pages;
-- others log what they do, and write what `t` has not written; and the undo of `t` may run for any
-- number of rounds, up to its last record but one, and then be cut off, by a crash.
pub data Run (t : TxnId) : Pool → (PageId → ℕ → ℕ) → Ranges → Type 0 where
  begins :
      (s : Pool)
      → 0 < s.log.next_lsn
      → IsSized s.written
      → Run t (record s { log = log_append s.log t begin }) (byte s.written) []
  writes :
      {s : Pool} {v : PageId → ℕ → ℕ} {held : Ranges} (p : PageId) (offset : ℕ) (patch : List ℕ)
      → Run t s v held
      → p < s.next_page_id
      → 12 ≤ offset
      → offset + length patch ≤ page_size
      → Run t (after_write s t p offset patch) v ((p, offset, length patch) ∷ held)
  allocates :
      {s : Pool} {v : PageId → ℕ → ℕ} {held : Ranges}
      → Run t s v held
      → Run t (after_new_page s t) v held
  others :
      {s : Pool} {v : PageId → ℕ → ℕ} {held : Ranges} (u : TxnId) (kind : LogRecordKind)
      (next_page_id : PageId) (written : Pages)
      → Run t s v held
      → u ≢ t
      → s.next_page_id ≤ next_page_id
      → IsSized written
      → ((q : PageId) (i : ℕ) → is_held held q i ≡ true → byte written q i ≡ byte s.written q i)
      → Run t
          (after_others s u kind next_page_id written)
          (λ q i. if is_held held q i then v q i else byte written q i)
          held
  undoes :
      {s : Pool} {v : PageId → ℕ → ℕ} {held : Ranges} (n : ℕ) (lsn : Lsn)
      → Run t s v held
      → get t s.log.last_lsn_by_txn ≡ some lsn
      → Run t (undo_loop n s t (some lsn)).1 v held
  aborts :
      {s : Pool} {v : PageId → ℕ → ℕ} {held : Ranges}
      → Run t s v held
      → Run t (record s { log = log_append s.log t abort }) v held
