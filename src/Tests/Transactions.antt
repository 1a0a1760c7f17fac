-- ===== src/Tests/Transactions.antt =====
-- Two transactions, of which the first has written a row and commits.
use simple_rdbms.Common.{ℕ, ◌+◌, ◌≡◌, ◌≢◌, refl, arith, none, some, [], ok}
use simple_rdbms.Common.Map.{nat_eq, get, insert}
use simple_rdbms.Ids.{Rid, rid_eq}
use simple_rdbms.Txn.VersionStore.{is_visible_to, record_insert}
use simple_rdbms.Txn.Transaction.{Transaction, new_transaction, snapshot_isolation}
use simple_rdbms.Txn.Manager.{
  TransactionManager, PoolOps, new_manager, begin, commit, begins, writes,
}
use simple_rdbms.Txn.Manager.{Run, opened, called}
use simple_rdbms.Txn.Manager.Invariant.{IsOrderly}
use simple_rdbms.Txn.Manager.Keeps.{Run-IsOrderly}
use simple_rdbms.Txn.Manager.Snapshot.{is_visible_to-commit}

-- A log that counts its records, and never fails.
abbrev counting : PoolOps ℕ (Unit {0})
counting = record {
  append_log = λ pool txn_id kind. (ok pool, pool + 1);
  flush_log = λ pool lsn. (ok tt, pool);
  last_lsn = λ pool txn_id. none;
  undo_transaction = λ pool txn_id lsn. (ok tt, pool);
  append_log_total = λ pool txn_id kind. (pool, refl);
}

abbrev row : Rid
row = record { page_id = 3; slot = 0 }

abbrev begun : TransactionManager
unfolding begin
begun =
    (begin counting (begin counting (new_manager none) 0 snapshot_isolation).0 1
      snapshot_isolation).0

abbrev writer : Transaction
writer = new_transaction 0 snapshot_isolation 0 0

abbrev reader : Transaction
reader = new_transaction 1 snapshot_isolation 1 1

writer_active : get 0 begun.active ≡ some writer
unfolding begun begin get insert
writer_active = refl

abbrev written : TransactionManager
unfolding begun
written = record begun { version_store = record_insert begun.version_store 0 row }

reader_active : get 1 written.active ≡ some reader
unfolding written begun begin get insert
reader_active = refl

chain_written : get row written.version_store.chains ≢ some []
unfolding written begun begin insert record_insert get
chain_written e = absurd (ground (arith, e))

Run-written : Run counting none written
unfolding written begun
Run-written =
    called (called (called opened (begins 0 snapshot_isolation)) (begins 1 snapshot_isolation))
      (writes 0 writer row writer_active)

is_visible_to-commit_example :
    is_visible_to (commit counting written 2 0).0.version_store row 1 1
    ≡ is_visible_to written.version_store row 1 1
is_visible_to-commit_example =
    is_visible_to-commit counting Run-written 2 0 1 reader row reader_active (omega arith)
      chain_written

Run-IsOrderly_example : IsOrderly written
Run-IsOrderly_example = Run-IsOrderly counting Run-written
