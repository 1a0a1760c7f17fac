-- ===== src/Txn/Manager.antt =====
-- crates/txn/src/manager.rs: transactions over the lock manager and the version store. What it
-- calls of the buffer pool is an interface; of its laws the proofs use that the log can always be
-- appended to, as `LogManager::append` of crates/storage/src/wal.rs does.
pub mod Invariant
pub mod Keeps
pub mod Snapshot
use simple_rdbms.Common.{
  ℕ, zero, suc, ◌+◌, ◌≡◌, Bool, true, false, Option, none, some, List, [], ◌∷◌,
}
use simple_rdbms.Common.{Result, ok, err, if◌then◌else◌, leb}
use Prim.Native.Nat.{min}
use simple_rdbms.Common.Map.{Map, nat_eq, get, insert, remove}
use simple_rdbms.Ids.{TxnId, Lsn, Rid}
use simple_rdbms.Storage.Wal.Record.{LogRecordKind}
use simple_rdbms.Txn.LockState.{State, default_state}
use simple_rdbms.Txn.LockManager.{release_all, prune_finished, Step}
use simple_rdbms.Txn.VersionStore.{StoreState, default_store, record_insert, commit_versions}
use simple_rdbms.Txn.VersionStore.{abort_versions, prune}
use simple_rdbms.Txn.Transaction.{TransactionState, growing, aborted, IsolationLevel, Transaction}
use simple_rdbms.Txn.Transaction.{new_transaction}

pub record TransactionManager : Type 0 where
  pub active : Map TxnId Transaction
  pub next_txn_id : ℕ
  pub lock_manager : State
  pub version_store : StoreState
  pub next_ts : ℕ

-- `highest_seen.map_or(0, |TxnId(id)| id + 1)`
abbrev pub after_highest : Option TxnId → ℕ
after_highest none = 0
after_highest (some id) = id + 1

abbrev pub new_manager : Option TxnId → TransactionManager
new_manager highest_seen = record {
  active = [];
  next_txn_id = after_highest highest_seen;
  lock_manager = default_state;
  version_store = default_store;
  next_ts = 0;
}

-- `values().map(|txn| txn.read_ts).min()`, `keys().min()` and `values().map(|txn| txn.begin_lsn).min()`
abbrev pub min_read_ts : Map TxnId Transaction → ℕ → ℕ
min_read_ts [] otherwise = otherwise
min_read_ts ((id, txn) ∷ []) otherwise = txn.read_ts
min_read_ts ((id, txn) ∷ p ∷ rest) otherwise = min txn.read_ts (min_read_ts (p ∷ rest) otherwise)

abbrev pub min_key : Map TxnId Transaction → ℕ → ℕ
min_key [] otherwise = otherwise
min_key ((id, txn) ∷ []) otherwise = id
min_key ((id, txn) ∷ p ∷ rest) otherwise = min id (min_key (p ∷ rest) otherwise)

unfoldable pub oldest_active_read_ts : TransactionManager → ℕ
oldest_active_read_ts m = min_read_ts m.active m.next_ts

unfoldable pub oldest_active_txn_id : TransactionManager → TxnId
oldest_active_txn_id m = min_key m.active m.next_txn_id

-- The calls of the buffer pool: each may change the pool, and fail.
pub record PoolOps (Pool : Type 0) (StorageError : Type 0) : Type 0 where
  pub append_log : Pool → TxnId → LogRecordKind → Result StorageError Lsn × Pool
  pub flush_log : Pool → Lsn → Result StorageError (Unit {0}) × Pool
  pub last_lsn : Pool → TxnId → Option Lsn
  pub undo_transaction : Pool → TxnId → Lsn → Result StorageError (Unit {0}) × Pool
  pub append_log_total :
      (pool : Pool) (txn_id : TxnId) (kind : LogRecordKind)
      → (lsn : Lsn) × ((append_log pool txn_id kind).0 ≡ ok lsn)

pub record PendingAbort : Type 0 where
  pub txn_id : TxnId
  pub last_lsn : Option Lsn

-- The last steps of `commit` and `finish_abort`, without the transaction.
unfoldable pub let_go : TransactionManager → TxnId → TransactionManager
unfolding prune release_all prune_finished oldest_active_read_ts oldest_active_txn_id
let_go m txn_id = record m {
  version_store = prune m.version_store (oldest_active_read_ts m);
  lock_manager = prune_finished (release_all m.lock_manager txn_id) (oldest_active_txn_id m);
}

abbrev pub is_aborted : TransactionState → Bool
is_aborted growing = false
is_aborted aborted = true

pub data ManagerError (StorageError : Type 0) : Type 0 where
  unknown_transaction abort_in_progress : TxnId → ManagerError StorageError
  storage : StorageError → ManagerError StorageError

-- A call's state behind it: the manager, the pool and the result.
abbrev pub Called : Type 0 → Type 0 → Type 0 → Type 0
Called Pool StorageError A = TransactionManager × Pool × Result (ManagerError StorageError) A

unfoldable pub cancel_abort : TransactionManager → PendingAbort → TransactionManager
unfolding get insert
cancel_abort m pending = elim (get pending.txn_id m.active) [
  | none ↦ m
  | some txn ↦ record m { active = insert pending.txn_id (record txn { state = growing }) m.active }
]

module _ {Pool : Type 0} {StorageError : Type 0} (ops : PoolOps Pool StorageError) where
  unfoldable pub begin : TransactionManager → Pool → IsolationLevel → Called Pool StorageError TxnId
  unfolding insert
  begin m pool isolation_level =
      let counted = record m { next_txn_id = m.next_txn_id + 1; next_ts = m.next_ts + 1 } in
      let (appended, pool') = ops.append_log pool m.next_txn_id LogRecordKind.begin in
      elim appended [
        | err e ↦ (counted, pool', err (storage e))
        | ok begin_lsn ↦ (
          record counted {
            active =
                insert m.next_txn_id
                  (new_transaction m.next_txn_id isolation_level begin_lsn m.next_ts) m.active;
          },
          pool',
          ok m.next_txn_id,
        )
      ]

  -- `commit` from the time stamp on.
  unfoldable pub commit_flushed :
      TransactionManager → Pool → TxnId → Called Pool StorageError (Unit {0})
  unfolding let_go commit_versions remove
  commit_flushed m pool txn_id =
      let stamped : TransactionManager = record m {
        version_store = commit_versions m.version_store txn_id m.next_ts;
        next_ts = m.next_ts + 1;
      } in
      let (appended, pool') = ops.append_log pool txn_id LogRecordKind.end in
      elim appended [
        | err e ↦ (stamped, pool', err (storage e))
        | ok _ ↦ (let_go (record stamped { active = remove txn_id m.active }) txn_id, pool', ok tt)
      ]

  unfoldable pub commit : TransactionManager → Pool → TxnId → Called Pool StorageError (Unit {0})
  unfolding commit_flushed get
  commit m pool txn_id = elim (get txn_id m.active) [
    | none ↦ (m, pool, err (unknown_transaction txn_id))
    | some txn ↦
        if is_aborted txn.state
        then (m, pool, err (abort_in_progress txn_id))
        else (let (appended, pool₁) = ops.append_log pool txn_id LogRecordKind.commit in
            elim appended [
              | err e ↦ (m, pool₁, err (storage e))
              | ok commit_lsn ↦
                  (let (flushed, pool₂) = ops.flush_log pool₁ commit_lsn in
                    elim flushed [
                      | err e ↦ (m, pool₂, err (storage e))
                      | ok _ ↦ commit_flushed m pool₂ txn_id
                    ])
            ])
  ]

  unfoldable pub begin_abort :
      TransactionManager → Pool → TxnId → Called Pool StorageError PendingAbort
  unfolding get insert
  begin_abort m pool txn_id = elim (get txn_id m.active) [
    | none ↦ (m, pool, err (unknown_transaction txn_id))
    | some txn ↦ if is_aborted txn.state then (m, pool, err (abort_in_progress txn_id)) else (
      record m { active = insert txn_id (record txn { state = aborted }) m.active },
      pool,
      ok (record { txn_id = txn_id; last_lsn = ops.last_lsn pool txn_id }),
    )
  ]

  -- `PendingAbort::undo`
  unfoldable pub undo : Pool → PendingAbort → Result StorageError (Unit {0}) × Pool
  undo pool pending = elim pending.last_lsn [
    | none ↦ (ok tt, pool)
    | some last_lsn ↦ ops.undo_transaction pool pending.txn_id last_lsn
  ]

  unfoldable pub finish_abort :
      TransactionManager → Pool → PendingAbort → Called Pool StorageError (Unit {0})
  unfolding let_go abort_versions get remove
  finish_abort m pool pending = elim (get pending.txn_id m.active) [
    | none ↦ (m, pool, err (unknown_transaction pending.txn_id))
    | some txn ↦ (
      let_go
          (record m {
            active = remove pending.txn_id m.active;
            version_store = abort_versions m.version_store pending.txn_id m.next_ts;
          })
          pending.txn_id,
      pool,
      ok tt,
    )
  ]

  -- `abort` behind `begin_abort`.
  unfoldable pub abort_pending :
      TransactionManager → Pool → PendingAbort → Called Pool StorageError (Unit {0})
  unfolding undo finish_abort cancel_abort
  abort_pending m pool pending =
      let (undone, pool') = undo pool pending in
      elim undone [
        | ok _ ↦ finish_abort m pool' pending
        | err e ↦ (cancel_abort m pending, pool', err (storage e))
      ]

  unfoldable pub abort : TransactionManager → Pool → TxnId → Called Pool StorageError (Unit {0})
  unfolding begin_abort abort_pending
  abort m pool txn_id =
      let (m', pool', begun) = begin_abort m pool txn_id in
      elim begun [ err e ↦ (m', pool', err e) | ok pending ↦ abort_pending m' pool' pending ]

  -- The calls on the manager, and those of the executor on the store and the locks that it shares,
  -- in any order; a row is written by a transaction that is active.
  pub data Call (m : TransactionManager) : TransactionManager → Type 0 where
    begins : (pool : Pool) (level : IsolationLevel) → Call m (begin m pool level).0
    commits : (pool : Pool) (txn_id : TxnId) → Call m (commit m pool txn_id).0
    aborts : (pool : Pool) (txn_id : TxnId) → Call m (abort m pool txn_id).0
    starts_abort : (pool : Pool) (txn_id : TxnId) → Call m (begin_abort m pool txn_id).0
    ends_abort : (pool : Pool) (pending : PendingAbort) → Call m (finish_abort m pool pending).0
    cancels_abort : (pending : PendingAbort) → Call m (cancel_abort m pending)
    writes :
        (txn_id : TxnId) (txn : Transaction) (rid : Rid)
        → get txn_id m.active ≡ some txn
        → Call m (record m { version_store = record_insert m.version_store txn_id rid })
    locks : (s : State) → Step m.lock_manager s → Call m (record m { lock_manager = s })

  pub data Run (highest_seen : Option TxnId) : TransactionManager → Type 0 where
    opened : Run highest_seen (new_manager highest_seen)
    called : {m n : TransactionManager} → Run highest_seen m → Call m n → Run highest_seen n
