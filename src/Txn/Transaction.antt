-- ===== src/Txn/Transaction.antt =====
-- crates/txn/src/transaction.rs and isolation.rs.
use simple_rdbms.Common.{ℕ}
use simple_rdbms.Ids.{TxnId, Lsn}

pub data TransactionState : Type 0 where
  growing aborted : TransactionState

pub data IsolationLevel : Type 0 where
  read_uncommitted read_committed repeatable_read : IsolationLevel
  snapshot_isolation serializable : IsolationLevel

pub record Transaction : Type 0 where
  pub txn_id : TxnId
  pub isolation_level : IsolationLevel
  pub state : TransactionState
  pub begin_lsn : Lsn
  pub read_ts : ℕ

abbrev pub new_transaction : TxnId → IsolationLevel → Lsn → ℕ → Transaction
new_transaction txn_id isolation_level begin_lsn read_ts = record {
  txn_id = txn_id;
  isolation_level = isolation_level;
  state = growing;
  begin_lsn = begin_lsn;
  read_ts = read_ts;
}
