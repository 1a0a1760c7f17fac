-- ===== src/Storage/Restart.antt =====
-- `recover` of crates/storage/src/recovery.rs: the analysis of the log, the redo of what the pages do
-- not hold yet, and the undo of the transactions that did not end.
pub mod Replay
pub mod Redo
use simple_rdbms.Common.{
  ℕ, ◌+◌, Bool, true, false, not, ◌&&◌, Option, none, some, List, [], ◌∷◌, drop, take,
}
use simple_rdbms.Common.{Result, ok, err, ◌>>=◌, ltb, ◌==◌, if◌then◌else◌}
use simple_rdbms.Common.Map.{Map, nat_eq, get, insert, remove}
use simple_rdbms.Common.Bytes.{from_le_bytes}
use simple_rdbms.Ids.{PageId, TxnId, Lsn}
use simple_rdbms.Storage.Wal.Record.{LogRecordKind, LoggedRecord, begin, commit, abort, end}
use simple_rdbms.Storage.Wal.Record.{update, clr, alloc_page, checkpoint_begin, checkpoint_end}
use simple_rdbms.Storage.Page.{page_lsn}
use simple_rdbms.Storage.Log.{iter_from, header_len, checkpoint_txn, max_txn_id}
use simple_rdbms.Storage.Recovery.{Pool, RecoveryError, fetch, stamp_write, ensure_page_allocated}
use simple_rdbms.Storage.Recovery.{nonzero, undo_transaction}

-- The last lsn of a transaction, and whether it has committed.
abbrev pub ActiveTransactions : Type 0
ActiveTransactions = Map TxnId (Lsn × Bool)

abbrev pub DirtyPages : Type 0
DirtyPages = Map PageId Lsn

-- `BufferPool::last_checkpoint_lsn`, of page 0.
unfoldable pub last_checkpoint_lsn : Pool → Result RecoveryError (Option Lsn)
unfolding fetch from_le_bytes
last_checkpoint_lsn pool =
    fetch pool 0 >>= λ bytes. ok (nonzero (from_le_bytes (take 8 (drop 32 bytes))))

unfoldable pub insert_active : List (TxnId × Lsn) → ActiveTransactions → ActiveTransactions
unfolding insert
insert_active [] att = att
insert_active ((txn_id, lsn) ∷ pairs) att = insert_active pairs (insert txn_id (lsn, false) att)

unfoldable pub insert_dirty : List (PageId × Lsn) → DirtyPages → DirtyPages
unfolding insert
insert_dirty [] dpt = dpt
insert_dirty ((page_id, lsn) ∷ pairs) dpt = insert_dirty pairs (insert page_id lsn dpt)

-- The loop over the records up to the end of the checkpoint.
unfoldable pub snapshot : List LoggedRecord → ActiveTransactions × DirtyPages
unfolding insert_active insert_dirty
snapshot [] = ([], [])
snapshot (r ∷ rs) =
    let rest = snapshot rs in
    if r.txn_id == checkpoint_txn
    then elim r.kind [
      | checkpoint_end att dpt ↦ (insert_active att [], insert_dirty dpt [])
      | begin ↦ rest
      | commit ↦ rest
      | abort ↦ rest
      | end ↦ rest
      | update page_id offset before after ↦ rest
      | alloc_page page_id ↦ rest
      | clr page_id offset after undo_next_lsn ↦ rest
      | checkpoint_begin ↦ rest
    ]
    else rest

-- `entry(..).and_modify(|entry| entry.0 = lsn).or_insert((lsn, false))`
unfoldable pub touch : TxnId → Lsn → ActiveTransactions → ActiveTransactions
unfolding get insert
touch txn_id lsn att = elim (get txn_id att) [
  | none ↦ insert txn_id (lsn, false) att
  | some (old, committed) ↦ insert txn_id (lsn, committed) att
]

-- `entry(..).or_insert(lsn)`
unfoldable pub first_dirty : PageId → Lsn → DirtyPages → DirtyPages
unfolding get insert
first_dirty page_id lsn dpt = elim (get page_id dpt) [
  | none ↦ insert page_id lsn dpt
  | some old ↦ dpt
]

-- What a record does to the transactions; a record of a checkpoint under another transaction, at
-- which the code would panic, does nothing.
unfoldable pub analyse_transaction : LoggedRecord → ActiveTransactions → ActiveTransactions
unfolding insert remove touch
analyse_transaction r att = elim r.kind [
  | end ↦ remove r.txn_id att
  | commit ↦ insert r.txn_id (r.lsn, true) att
  | begin ↦ insert r.txn_id (r.lsn, false) att
  | abort ↦ touch r.txn_id r.lsn att
  | update page_id offset before after ↦ touch r.txn_id r.lsn att
  | alloc_page page_id ↦ touch r.txn_id r.lsn att
  | clr page_id offset after undo_next_lsn ↦ touch r.txn_id r.lsn att
  | checkpoint_begin ↦ att
  | checkpoint_end active dirty ↦ att
]

-- What a record does to the pages that may lack it.
unfoldable pub analyse_page : LoggedRecord → DirtyPages → DirtyPages
unfolding first_dirty
analyse_page r dpt = elim r.kind [
  | update page_id offset before after ↦ first_dirty page_id r.lsn dpt
  | alloc_page page_id ↦ first_dirty page_id r.lsn dpt
  | clr page_id offset after undo_next_lsn ↦ first_dirty page_id r.lsn dpt
  | begin ↦ dpt
  | commit ↦ dpt
  | abort ↦ dpt
  | end ↦ dpt
  | checkpoint_begin ↦ dpt
  | checkpoint_end active dirty ↦ dpt
]

-- The second loop over the log.
unfoldable pub analyse :
    List LoggedRecord → ActiveTransactions → DirtyPages → ActiveTransactions × DirtyPages
unfolding analyse_transaction analyse_page
analyse [] att dpt = (att, dpt)
analyse (r ∷ rs) att dpt =
    if r.txn_id == checkpoint_txn
    then analyse rs att dpt
    else analyse rs (analyse_transaction r att) (analyse_page r dpt)

unfoldable pub losers_of : ActiveTransactions → List (TxnId × Lsn)
losers_of [] = []
losers_of ((txn_id, (last_lsn, committed)) ∷ att) =
    let rest = losers_of att in if committed then rest else (txn_id, last_lsn) ∷ rest

-- `dpt.values().min()`
unfoldable pub min_value : DirtyPages → Option Lsn
min_value [] = none
min_value ((page_id, lsn) ∷ dpt) =
    let rest = min_value dpt in
    elim rest [ none ↦ some lsn | some other ↦ if ltb other lsn then some other else some lsn ]

-- A page that has the record's lsn, or a later one, holds what the record says.
unfoldable pub redo_write :
    Pool → PageId → ℕ → List ℕ → Lsn → Result RecoveryError (Unit {0}) × Pool
unfolding fetch page_lsn stamp_write
redo_write pool page_id offset after lsn = elim (fetch pool page_id) [
  | err e ↦ (err e, pool)
  | ok bytes ↦
      if ltb (page_lsn bytes) lsn then stamp_write pool page_id offset after lsn else (ok tt, pool)
]

unfoldable pub redo_record : Pool → LoggedRecord → Result RecoveryError (Unit {0}) × Pool
unfolding redo_write ensure_page_allocated
redo_record pool r = elim r.kind [
  | update page_id offset before after ↦ redo_write pool page_id offset after r.lsn
  | clr page_id offset after undo_next_lsn ↦ redo_write pool page_id offset after r.lsn
  | alloc_page page_id ↦ (ok tt, ensure_page_allocated pool page_id)
  | begin ↦ (ok tt, pool)
  | commit ↦ (ok tt, pool)
  | abort ↦ (ok tt, pool)
  | end ↦ (ok tt, pool)
  | checkpoint_begin ↦ (ok tt, pool)
  | checkpoint_end att dpt ↦ (ok tt, pool)
]

unfoldable pub redo : Pool → List LoggedRecord → Result RecoveryError (Unit {0}) × Pool
unfolding redo_record
redo pool [] = (ok tt, pool)
redo pool (r ∷ rs) =
    let (done, pool') = redo_record pool r in
    let rest = redo pool' rs in elim done [ err e ↦ (err e, pool') | ok _ ↦ rest ]

-- The undo of each loser; its last lsn is fuel enough.
unfoldable pub undo_losers :
    Pool → List (TxnId × Lsn) → Option (Result RecoveryError (Unit {0}) × Pool)
unfolding undo_transaction
undo_losers pool [] = some (ok tt, pool)
undo_losers pool ((txn_id, last_lsn) ∷ losers) =
    elim (undo_transaction last_lsn pool txn_id last_lsn) [
      | none ↦ none
      | some (err e, pool') ↦ some (err e, pool')
      | some (ok _, pool') ↦ undo_losers pool' losers
    ]

-- The redo from the first record that a page may lack.
unfoldable pub redo_from : Pool → Option Lsn → Result RecoveryError (Unit {0}) × Pool
unfolding redo iter_from
redo_from pool none = (ok tt, pool)
redo_from pool (some min_recovery_lsn) = redo pool (iter_from pool.log min_recovery_lsn)

abbrev pub start_of : Option Lsn → Lsn
start_of none = header_len
start_of (some lsn) = lsn

-- The passes from the start on.
unfoldable pub recover_from : Pool → Lsn → Option (Result RecoveryError (Option TxnId) × Pool)
unfolding iter_from snapshot analyse min_value redo_from losers_of undo_losers max_txn_id
recover_from pool start =
    let (att₀, dpt₀) = snapshot (iter_from pool.log start) in
    let (att, dpt) = analyse (iter_from pool.log start) att₀ dpt₀ in
    let (redone, pool') = redo_from pool (min_value dpt) in
    let undone = undo_losers pool' (losers_of att) in
    elim redone [
      | err e ↦ some (err e, pool')
      | ok _ ↦ elim undone [
        | none ↦ none
        | some (err e, pool'') ↦ some (err e, pool'')
        | some (ok _, pool'') ↦ some (ok (max_txn_id pool''.log), pool'')
      ]
    ]

unfoldable pub recover : Pool → Option (Result RecoveryError (Option TxnId) × Pool)
unfolding last_checkpoint_lsn recover_from
recover pool = elim (last_checkpoint_lsn pool) [
  | err e ↦ some (err e, pool)
  | ok start ↦ recover_from pool (start_of start)
]
