-- ===== src/Executor.antt =====
-- crates/executor: the value of an expression on a row.
pub mod Expression
pub mod Operators
pub mod Factory
pub mod Select
