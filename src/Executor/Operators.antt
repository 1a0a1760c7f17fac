-- ===== src/Executor/Operators.antt =====
-- The operators of crates/executor/src/operators that answer rows: one_row, seq_scan, filter and
-- projection. The trait object of a child is a tree. What the scan calls of the buffer pool and of
-- the lock manager, whose calls block, are parameters. The rounds of the loops are fuel: `none` is
-- a call that has not come to its end.
pub mod Drain
pub mod Scan
use simple_rdbms.Common.{
  ℕ, zero, suc, ◌+◌, Bool, true, false, Option, none, some, List, [], ◌∷◌, map,
}
use simple_rdbms.Common.{Result, ok, err, ◌>>=◌, if◌then◌else◌}
use simple_rdbms.Ids.{TableId, PageId, TxnId, Rid}
use simple_rdbms.Types.Value.{DataType, Value, boolean}
use simple_rdbms.Types.Tuple.{TupleError, decode}
use simple_rdbms.Catalog.State.{CatalogState, CatalogError, table_by_id}
use simple_rdbms.Storage.Heap.{HeapError, PageScan, tuple, end_of_page, scan_page}
use simple_rdbms.Txn.LockState.{LockMode, shared}
use simple_rdbms.Txn.Transaction.{Transaction, IsolationLevel, snapshot_isolation}
use simple_rdbms.Txn.VersionStore.{StoreState, is_visible_to}
use simple_rdbms.Planner.BoundExpr.{BoundExpr}
use simple_rdbms.Executor.Expression.{ExecutorError, evaluate}

abbrev pub Tuple : Type 0
Tuple = List Value

pub data OperatorError (StorageError LockError : Type 0) : Type 0 where
  evaluation : ExecutorError → OperatorError StorageError LockError
  corrupt_tuple : TupleError → OperatorError StorageError LockError
  storage : HeapError StorageError → OperatorError StorageError LockError
  catalog : CatalogError → OperatorError StorageError LockError
  lock : LockError → OperatorError StorageError LockError

pub record SeqScan : Type 0 where
  pub table_id : TableId
  pub column_types : List DataType
  pub current_page : Option PageId
  pub next_slot : ℕ

pub data Executor : Type 0 where
  one_row : (emitted : Bool) → Executor
  seq_scan : SeqScan → Executor
  filter : (predicate : BoundExpr) (child : Executor) → Executor
  projection : (expressions : List BoundExpr) (child : Executor) → Executor

-- `lock` and `lock_table` of the lock manager: each may change the locks, and fail.
pub record LockOps (Locks : Type 0) (LockError : Type 0) : Type 0 where
  pub lock_row : Locks → TxnId → Rid → LockMode → Result LockError (Unit {0}) × Locks
  pub lock_table : Locks → TxnId → TableId → LockMode → Result LockError (Unit {0}) × Locks

-- What the operators read of their context.
pub record Context : Type 0 where
  pub catalog : CatalogState
  pub txn : Transaction
  pub version_store : StoreState

abbrev pub is_snapshot : IsolationLevel → Bool
is_snapshot snapshot_isolation = true
is_snapshot _ = false

-- `expressions.iter().map(evaluate).collect()`
unfoldable pub evaluate_all : List BoundExpr → Tuple → Result ExecutorError Tuple
unfolding evaluate
evaluate_all [] t = ok []
evaluate_all (e ∷ es) t = evaluate e t >>= λ v. evaluate_all es t >>= λ vs. ok (v ∷ vs)

-- `== Value::Boolean(true)`
abbrev pub is_true : Value → Bool
is_true (boolean true) = true
is_true _ = false

module _ {StorageError LockError : Type 0} where
  -- The scan's answer for the bytes of a row.
  unfoldable pub decoded :
      SeqScan → List ℕ → Result (OperatorError StorageError LockError) (Option Tuple)
  unfolding decode
  decoded s bytes = elim (decode bytes s.column_types) [
    | ok row ↦ ok (some row)
    | err e ↦ err (corrupt_tuple e)
  ]

  -- The filter's answer on a row: the row, an error, or `none` for another round.
  unfoldable pub sift :
      BoundExpr → Tuple → Option (Result (OperatorError StorageError LockError) (Option Tuple))
  unfolding evaluate
  sift predicate row = elim (evaluate predicate row) [
    | err e ↦ some (err (evaluation e))
    | ok v ↦ if is_true v then some (ok (some row)) else none
  ]

  unfoldable pub project :
      List BoundExpr → Tuple → Result (OperatorError StorageError LockError) (Option Tuple)
  unfolding evaluate_all
  project expressions row = elim (evaluate_all expressions row) [
    | ok values ↦ ok (some values)
    | err e ↦ err (evaluation e)
  ]

module _ {LockError Locks : Type 0} (ops : LockOps Locks LockError) (ctx : Context) where
  -- `lock_table` of the scan's `init`, where the isolation level asks for it.
  unfoldable pub lock_scanned : Locks → TableId → Result LockError (Unit {0}) × Locks
  lock_scanned locks table_id =
      if is_snapshot ctx.txn.isolation_level
      then (ok tt, locks)
      else ops.lock_table locks ctx.txn.txn_id table_id shared

  -- Whether the row may be read: it is visible, or locked now.
  unfoldable pub admit : Locks → Rid → Result LockError Bool × Locks
  unfolding is_visible_to
  admit locks rid =
      if is_snapshot ctx.txn.isolation_level
      then (ok (is_visible_to ctx.version_store rid ctx.txn.txn_id ctx.txn.read_ts), locks)
      else (let (r, locks') = ops.lock_row locks ctx.txn.txn_id rid shared in
          elim r [ err e ↦ (err e, locks') | ok _ ↦ (ok true, locks') ])

module _ {StorageError LockError Locks : Type 0}
    (fetch_page_read : PageId → Result StorageError (List ℕ)) (ops : LockOps Locks LockError)
    (ctx : Context) where
  abbrev pub Answer : Type 0
  Answer = Result (OperatorError StorageError LockError) (Option Tuple) × Executor × Locks

  unfoldable pub init :
      Executor → Locks → Result (OperatorError StorageError LockError) (Unit {0}) × Executor × Locks
  unfolding table_by_id lock_scanned
  init (one_row emitted) locks = (ok tt, one_row false, locks)
  init (seq_scan s) locks = elim (table_by_id ctx.catalog s.table_id) [
    | err e ↦ (err (catalog e), seq_scan s, locks)
    | ok table ↦
        let (r, locks') = lock_scanned ops ctx locks s.table_id in
        elim r [
          | err e ↦ (err (lock e), seq_scan s, locks')
          | ok _ ↦ (
            ok tt,
            seq_scan (record s {
              column_types = map (λ c. c.data_type) table.schema;
              current_page = some table.first_page_id;
              next_slot = 0;
            }),
            locks',
          )
        ]
  ]
  init (filter predicate child) locks =
      let (r, child', locks') = init child locks in (r, filter predicate child', locks')
  init (projection expressions child) locks =
      let (r, child', locks') = init child locks in (r, projection expressions child', locks')

  unfoldable pub next : ℕ → Executor → Locks → Option Answer
  unfolding scan_page admit decoded sift project
  next zero e locks = none
  next (suc n) (one_row true) locks = some (ok none, one_row true, locks)
  next (suc n) (one_row false) locks = some (ok (some []), one_row true, locks)
  next (suc n) (seq_scan s) locks = elim s.current_page [
    | none ↦ some (ok none, seq_scan s, locks)
    | some page_id ↦ elim (scan_page fetch_page_read page_id s.next_slot) [
      | err e ↦ some (err (storage e), seq_scan s, locks)
      | ok (end_of_page next_page) ↦
          next n (seq_scan (record s { current_page = next_page; next_slot = 0 })) locks
      | ok (tuple slot bytes) ↦
          let (admitted, locks') =
            admit ops ctx locks (record { page_id = page_id; slot = slot }) in
          let behind = seq_scan (record s { next_slot = slot + 1 }) in
          elim admitted [
            | err e ↦ some (err (lock e), behind, locks')
            | ok false ↦ next n behind locks'
            | ok true ↦ some (decoded s bytes, behind, locks')
          ]
    ]
  ]
  next (suc n) (filter predicate child) locks = elim (next n child locks) [
    | none ↦ none
    | some (err e, child', locks') ↦ some (err e, filter predicate child', locks')
    | some (ok none, child', locks') ↦ some (ok none, filter predicate child', locks')
    | some (ok (some row), child', locks') ↦ elim (sift predicate row) [
      | some answer ↦ some (answer, filter predicate child', locks')
      | none ↦ next n (filter predicate child') locks'
    ]
  ]
  next (suc n) (projection expressions child) locks = elim (next n child locks) [
    | none ↦ none
    | some (err e, child', locks') ↦ some (err e, projection expressions child', locks')
    | some (ok none, child', locks') ↦ some (ok none, projection expressions child', locks')
    | some (ok (some row), child', locks') ↦
        some (project expressions row, projection expressions child', locks')
  ]
