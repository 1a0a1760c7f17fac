-- ===== src/Storage/Recovery.antt =====
-- crates/storage/src/recovery.rs: `undo_transaction` and `recover`. The frames of the buffer pool and
-- the pages on the device are one map, in which a page that was never written holds zeros; so
-- flushing changes nothing.
pub mod Bytes
pub mod Chain
pub mod Loop
pub mod History
pub mod Steps
pub mod Restores
use simple_rdbms.Common.{ℕ, zero, suc, ◌+◌, Bool, true, false, Option, none, some, List, [], ◌∷◌}
use simple_rdbms.Common.{take, drop, replicate, Result, ok, err, ltb, ◌==◌, if◌then◌else◌}
use simple_rdbms.Common.Map.{Map, nat_eq, get, insert, remove}
use simple_rdbms.Common.Bytes.{from_le_bytes}
use simple_rdbms.Ids.{PageId, TxnId, Lsn}
use simple_rdbms.Storage.Wal.Record.{
  LogRecordKind, LoggedRecord, or_zero, begin, commit, abort, end,
}
use simple_rdbms.Storage.Wal.Record.{update, clr, alloc_page, checkpoint_begin, checkpoint_end}
use simple_rdbms.Storage.PageWrite.{page_size, overwrite, set_page_lsn}
use simple_rdbms.Storage.Page.{page_lsn}
use simple_rdbms.Storage.Log.{
  Log, append, read_at, iter_from, header_len, checkpoint_txn, max_txn_id,
}

pub data RecoveryError : Type 0 where
  page_not_found : PageId → RecoveryError

pub record Pool : Type 0 where
  pub next_page_id : PageId
  pub written : Map PageId (List ℕ)
  pub log : Log

abbrev pub or_zeros : Option (List ℕ) → List ℕ
or_zeros none = replicate page_size 0
or_zeros (some bytes) = bytes

unfoldable pub page_bytes : Map PageId (List ℕ) → PageId → List ℕ
unfolding get
page_bytes written page_id = or_zeros (get page_id written)

-- `fetch_page_read`
unfoldable pub fetch : Pool → PageId → Result RecoveryError (List ℕ)
unfolding page_bytes
fetch pool page_id =
    if ltb page_id pool.next_page_id
    then ok (page_bytes pool.written page_id)
    else err (page_not_found page_id)

-- `BufferPool::stamp_write`
unfoldable pub stamp_write :
    Pool → PageId → (offset : ℕ) → List ℕ → Lsn → Result RecoveryError (Unit {0}) × Pool
unfolding fetch overwrite set_page_lsn insert
stamp_write pool page_id offset bytes lsn = elim (fetch pool page_id) [
  | err e ↦ (err e, pool)
  | ok page ↦ (
    ok tt,
    record pool {
      written = insert page_id (set_page_lsn (overwrite offset bytes page) lsn) pool.written;
    },
  )
]

-- `DiskManager::ensure_allocated`
unfoldable pub ensure_page_allocated : Pool → PageId → Pool
ensure_page_allocated pool page_id = record pool {
  next_page_id = if ltb pool.next_page_id (page_id + 1) then page_id + 1 else pool.next_page_id;
}

abbrev pub nonzero : Lsn → Option Lsn
nonzero lsn = if lsn == 0 then none else some lsn

-- The arm of an update in `undo_transaction`: what is undone is logged first.
unfoldable pub compensate :
    Pool → TxnId → PageId → ℕ → List ℕ → Option Lsn → Result RecoveryError (Unit {0}) × Pool
unfolding append stamp_write
compensate pool txn_id page_id offset before prev_lsn =
    let (appended, log) = append pool.log txn_id (clr page_id offset before (or_zero prev_lsn)) in
    elim appended [
      | err e ↦ (err e, record pool { log = log })
      | ok lsn ↦ stamp_write (record pool { log = log }) page_id offset before lsn
    ]

-- The loop of `undo_transaction`, of at most `n` rounds, with the cursor that it comes to.
unfoldable pub undo_loop :
    ℕ → Pool → TxnId → (cursor : Option Lsn) → Result RecoveryError (Unit {0}) × Pool × Option Lsn
unfolding read_at compensate
undo_loop n pool txn_id none = (ok tt, pool, none)
undo_loop zero pool txn_id (some lsn) = (ok tt, pool, some lsn)
undo_loop (suc n) pool txn_id (some lsn) = elim (read_at pool.log lsn) [
  | none ↦ (ok tt, pool, none)
  | some r ↦ elim r.kind [
    | update page_id offset before after ↦
        let (written, pool') = compensate pool txn_id page_id offset before r.prev_lsn in
        let rest = undo_loop n pool' txn_id r.prev_lsn in
        elim written [ err e ↦ (err e, pool', some lsn) | ok _ ↦ rest ]
    | clr page_id offset after undo_next_lsn ↦ undo_loop n pool txn_id (nonzero undo_next_lsn)
    | begin ↦ (ok tt, pool, none)
    | commit ↦ undo_loop n pool txn_id r.prev_lsn
    | abort ↦ undo_loop n pool txn_id r.prev_lsn
    | end ↦ undo_loop n pool txn_id r.prev_lsn
    | alloc_page page_id ↦ undo_loop n pool txn_id r.prev_lsn
    | checkpoint_begin ↦ undo_loop n pool txn_id r.prev_lsn
    | checkpoint_end att dpt ↦ undo_loop n pool txn_id r.prev_lsn
  ]
]

-- `none` is a loop that has not come to its end in `n` rounds.
unfoldable pub undo_transaction :
    ℕ → Pool → TxnId → Lsn → Option (Result RecoveryError (Unit {0}) × Pool)
unfolding undo_loop append
undo_transaction n pool txn_id from =
    let (undone, pool', cursor) = undo_loop n pool txn_id (some from) in
    let (aborted, log₁) = append {StorageError = RecoveryError} pool'.log txn_id abort in
    let (ended, log₂) = append {StorageError = RecoveryError} log₁ txn_id end in
    elim undone [
      | err e ↦ some (err e, pool')
      | ok _ ↦ elim cursor [ some lsn ↦ none | none ↦ some (ok tt, record pool' { log = log₂ }) ]
    ]
