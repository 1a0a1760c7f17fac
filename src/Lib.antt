-- ===== src/Lib.antt =====
-- Verification library of simple_rdbms, a relational database in Rust.
--
-- The program. A client's SQL text is lexed and parsed (crates/sql), bound to the tables of the
-- catalog (crates/catalog, crates/planner), optimized into a plan and run by pull operators
-- (crates/executor) on rows (crates/types) that are kept in slotted pages and B-trees behind a
-- buffer pool and a write-ahead log (crates/storage). Transactions (crates/txn) lock rows and
-- tables in two phases and read snapshots of versioned rows. crates/engine and crates/server put
-- these together on threads and sockets.
--
-- The files. Each is named for the part that it models:
--   Common/...      helpers: lists, words, bytes, byte order, maps, exclusive or; no code
--   Ids             crates/common/src/ids.rs
--   SqlState, Error crates/common/src/sql_state.rs and error.rs: codes, severity, retries
--   Crc             crates/common/src/crc.rs: table, crc32
--   Types/Value     crates/types/src/data_type.rs and value.rs: Value, compare
--   Types/Tuple     crates/types/src/tuple.rs: the bytes of a row, encode and decode
--   Types/Memcomparable  crates/types/src/memcomparable.rs: keys whose byte order is that of values
--   Types/Utf8, Types/Float  what the two above use of Rust's str and f64, from the language
--   Storage/Wal/Record   crates/storage/src/wal.rs: encode_record, decode_record
--   Storage/Wal/Segment  crates/storage/src/wal.rs: scan_active_segment, scan_sealed_segment
--   Storage/Page         crates/storage/src/page.rs: checksum and lsn of a page
--   Storage/Replacer     crates/storage/src/replacer.rs: LruKReplacer
--   Storage/PageWrite    PageWriteGuard::write of crates/storage/src/buffer.rs, over a log that is a parameter
--   Storage/SlottedPage  crates/storage/src/heap.rs: SlottedPage and the functions before it
--   Storage/Heap         crates/storage/src/heap.rs: what is read of TableHeap
--   Storage/Log          LogManager of crates/storage/src/wal.rs, by its records
--   Storage/Recovery, Storage/Restart  crates/storage/src/recovery.rs: undo_transaction, recover
--   Sql/Ast              crates/sql/src/ast.rs: statements and expressions
--   Sql/Token, Sql/Parser  crates/sql/src/token.rs, parser.rs: the parser, on tokens
--   Catalog/Schema, Catalog/State  crates/catalog/src: schemas, tables and indexes, and CatalogState
--   Planner/PlannerError crates/planner/src/error.rs
--   Planner/BoundExpr, Planner/Binder, Planner/Binder/Statements  crates/planner/src/binder.rs
--   Planner/Parameters, Planner/Parameters/Values  crates/planner/src/parameters.rs
--   Planner/Plan         crates/planner/src/plan.rs, logical_plan.rs, physical_plan.rs
--   Planner/Optimizer    crates/planner/src/optimizer.rs: Optimizer, IndexScanRule
--   Planner/ScanBounds   crates/planner/src/optimizer.rs: index_scan_bounds
--   Executor/Expression  crates/executor/src/expression.rs: evaluate
--   Executor/Operators   crates/executor/src/operators: one_row, seq_scan, filter, projection
--   Executor/Factory     build_executor of crates/engine/src/executor_factory.rs
--   Txn/LockState, Txn/LockManager  crates/txn/src/lock_manager.rs
--   Txn/VersionChain     crates/txn/src/mvcc.rs
--   Txn/VersionStore     crates/txn/src/version_store.rs
--   Txn/Transaction      crates/txn/src/transaction.rs and isolation.rs
--   Txn/Manager          crates/txn/src/manager.rs, with the buffer pool as the interface PoolOps
--   Tests/...       the theorems at concrete inputs
-- The children of a file hold its proofs and are named for what they prove.
--
-- How code becomes definitions. A struct is a record, an enum a data type, a mutex the value that
-- it guards; a method takes the state and returns the next. Errors are values of Result, with the
-- texts of messages as constructors; a panic in Planner/Parameters/Values is none. A map is an
-- association list that is read by its keys, a set a list that is read by membership. Integers are natural numbers below their width, with the
-- wrap-around of casts written out; i32 and i64 are integers of their range. An f64 is its 64 bits
-- and a str its bytes. The waits of the lock manager on its condition variable are steps: a call
-- runs up to its first wait, and each wake-up is one more round of its loop, so that any order of
-- steps of Step is an interleaving of callers.
--
-- Fuel. search_cycle (would_deadlock) runs on cycle_fuel, the size of the stack and of all waits;
-- scan_loop on the number of bytes of the segment, for each record takes some; undo_loop on the lsn it
-- starts at, for the lsns of a chain fall; parse_expr on the nesting of parentheses, for which parse
-- gives the number of tokens; the operators of Executor/Operators on a number of rounds
-- that a result gives. That this is
-- enough is among the results below.
--
-- Not modelled. Files and devices (disk.rs, block_device.rs, the segment store), threads and
-- sockets (crates/engine, crates/server, crates/cli), metrics and tracing. index_scan_bounds
-- takes the catalog's index_for_column as a parameter, as the id of an index, and index_id_for is what
-- the optimizer gives it. Of the rest, what
-- is not in the list of files has no model yet.
pub mod Common
pub mod Crc
pub mod Ids
pub mod SqlState
pub mod Error
pub mod Types
pub mod Storage
pub mod Sql
pub mod Catalog
pub mod Planner
pub mod Executor
pub mod Txn
pub mod Tests
