-- ===== src/Txn.antt =====
-- crates/txn: the lock manager, the versions of rows, and the transactions.
pub mod LockState
pub mod LockManager
pub mod VersionChain
pub mod VersionStore
pub mod Transaction
pub mod Manager
