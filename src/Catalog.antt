-- ===== src/Catalog.antt =====
-- crates/catalog: the schemas of tables, and the state that finds tables and indexes.
pub mod Schema
pub mod State
