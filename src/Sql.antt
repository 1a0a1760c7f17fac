-- ===== src/Sql.antt =====
-- crates/sql: the syntax of statements.
pub mod Ast
pub mod Token
pub mod Parser
