-- ===== src/Planner/Plan.antt =====
-- The plans of crates/planner: logical_plan.rs, `plan` of plan.rs and `to_physical` of
-- physical_plan.rs.
use simple_rdbms.Common.{ℕ, Option, none, some, List}
use simple_rdbms.Ids.{TableId, IndexId}
use simple_rdbms.Sql.Ast.{Name}
use simple_rdbms.Planner.BoundExpr.{BoundExpr}
use simple_rdbms.Planner.Binder.Statements.{BoundStatement, BoundColumnDef}

pub data LogicalPlan : Type 0 where
  one_row : LogicalPlan
  seq_scan : (table_id : TableId) → LogicalPlan
  index_scan : (index_id : IndexId) (table_id : TableId) (start end : Option (List ℕ)) → LogicalPlan
  filter : (predicate : BoundExpr) (input : LogicalPlan) → LogicalPlan
  projection : (expressions : List BoundExpr) (input : LogicalPlan) → LogicalPlan
  join : (left right : LogicalPlan) (predicate : BoundExpr) → LogicalPlan
  insert : (table_id : TableId) (rows : List (List BoundExpr)) → LogicalPlan
  create_table : (table_name : Name) (columns : List BoundColumnDef) → LogicalPlan
  create_index : (index_name : Name) (table_id : TableId) (column_index : ℕ) → LogicalPlan

abbrev pub scan_of : Option TableId → LogicalPlan
scan_of none = one_row
scan_of (some table_id) = seq_scan table_id

abbrev pub filtered : Option BoundExpr → LogicalPlan → LogicalPlan
filtered none input = input
filtered (some predicate) input = filter predicate input

-- `none` stands for `unreachable!`.
unfoldable pub plan : BoundStatement → Option LogicalPlan
plan (BoundStatement.select b) =
    some (projection b.projections (filtered b.predicate (scan_of b.table_id)))
plan (BoundStatement.insert b) = some (insert b.table_id b.rows)
plan (BoundStatement.create_table b) = some (create_table b.table_name b.columns)
plan (BoundStatement.create_index b) = some (create_index b.index_name b.table_id b.column_index)
plan (BoundStatement.explain verbose inner) = none

pub data PhysicalPlan : Type 0 where
  one_row : PhysicalPlan
  seq_scan : (table_id : TableId) → PhysicalPlan
  index_scan :
      (index_id : IndexId) (table_id : TableId) (start end : Option (List ℕ)) → PhysicalPlan
  filter : (predicate : BoundExpr) (input : PhysicalPlan) → PhysicalPlan
  projection : (expressions : List BoundExpr) (input : PhysicalPlan) → PhysicalPlan
  nested_loop_join : (left right : PhysicalPlan) (predicate : BoundExpr) → PhysicalPlan
  insert : (table_id : TableId) (rows : List (List BoundExpr)) → PhysicalPlan
  create_table : (table_name : Name) (columns : List BoundColumnDef) → PhysicalPlan
  create_index : (index_name : Name) (table_id : TableId) (column_index : ℕ) → PhysicalPlan

unfoldable pub to_physical : LogicalPlan → PhysicalPlan
to_physical LogicalPlan.one_row = PhysicalPlan.one_row
to_physical (LogicalPlan.seq_scan t) = PhysicalPlan.seq_scan t
to_physical (LogicalPlan.index_scan i t start end) = PhysicalPlan.index_scan i t start end
to_physical (LogicalPlan.filter predicate input) = PhysicalPlan.filter predicate (to_physical input)
to_physical (LogicalPlan.projection expressions input) =
    PhysicalPlan.projection expressions (to_physical input)
to_physical (LogicalPlan.join left right predicate) =
    PhysicalPlan.nested_loop_join (to_physical left) (to_physical right) predicate
to_physical (LogicalPlan.insert t rows) = PhysicalPlan.insert t rows
to_physical (LogicalPlan.create_table name columns) = PhysicalPlan.create_table name columns
to_physical (LogicalPlan.create_index name t column) = PhysicalPlan.create_index name t column
