-- ===== src/Catalog/Schema.antt =====
-- crates/catalog/src/column.rs, schema.rs, table_info.rs and index_info.rs. A schema is its columns.
use simple_rdbms.Common.{ℕ, suc, Bool, Option, none, some, List, [], ◌∷◌, if◌then◌else◌}
use simple_rdbms.Common.Options.{bytes_beq}
use simple_rdbms.Ids.{TableId, IndexId, PageId, Rid}
use simple_rdbms.Sql.Ast.{Name}
use simple_rdbms.Types.Value.{DataType}

pub record Column : Type 0 where
  pub name : Name
  pub data_type : DataType
  pub nullable : Bool

abbrev pub Schema : Type 0
Schema = List Column

-- `position`, counted from `i`.
unfoldable pub position_from : ℕ → Schema → Name → Option ℕ
position_from i [] name = none
position_from i (column ∷ columns) name =
    let rest = position_from (suc i) columns name in
    if bytes_beq column.name name then some i else rest

unfoldable pub column_index : Schema → Name → Option ℕ
unfolding position_from
column_index schema name = position_from 0 schema name

pub record TableInfo : Type 0 where
  pub table_id : TableId
  pub name : Name
  pub schema : Schema
  pub first_page_id : PageId

pub record IndexInfo : Type 0 where
  pub index_id : IndexId
  pub name : Name
  pub table_id : TableId
  pub column_index : ℕ
  pub catalog_rid : Rid
  pub root_page_id_offset : ℕ
  pub root_page_id : PageId
