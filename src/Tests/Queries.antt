-- ===== src/Tests/Queries.antt =====
-- A table of two rows on one page, and what is bound, planned and answered on it.
use simple_rdbms.Common.{ℕ, ◌≡◌, refl, true, false, none, some, List, []}
use simple_rdbms.Common.{◌∷◌, ◌++◌, replicate, Result, ok, All}
use simple_rdbms.Common.Int.{pos}
use simple_rdbms.Common.Bytes.{from_le_bytes}
use simple_rdbms.Types.Utf8.{utf8_valid}
use simple_rdbms.Ids.{PageId, Rid}
use simple_rdbms.Sql.Ast.{Name, Expr, BinaryOperator, SelectItem, SelectStatement}
use simple_rdbms.Types.Value.{DataType, null, integer, big_int, varchar}
use simple_rdbms.Storage.Heap.{entries_from}
use simple_rdbms.Catalog.Schema.{Schema, TableInfo}
use simple_rdbms.Catalog.State.{CatalogState, empty_state, create_table, table_by_id}
use simple_rdbms.Planner.BoundExpr.{BoundExpr}
use simple_rdbms.Planner.Binder.{SessionContext, bind_expr}
use simple_rdbms.Planner.Binder.Values.{types_of, Yields}
use simple_rdbms.Planner.Binder.Sound.{bind_expr-Yields}
use simple_rdbms.Planner.Binder.Statements.{BoundSelect, BoundStatement, bind_select}
use simple_rdbms.Planner.Binder.Statements.{from_table}
use simple_rdbms.Planner.Plan.{LogicalPlan, plan, to_physical}
use simple_rdbms.Txn.Transaction.{new_transaction, serializable}
use simple_rdbms.Txn.VersionStore.{default_store}
use simple_rdbms.Executor.Operators.{Tuple, Executor, LockOps, Context, lock_scanned, init}
use simple_rdbms.Executor.Operators.Drain.{Drains, passes, image}
use simple_rdbms.Executor.Operators.Scan.{read_rows}
use simple_rdbms.Executor.Factory.{build_executor}
use simple_rdbms.Executor.Select.{selected, OfTypes, select-Drains}

abbrev pub id : Name
id = b'i' ∷ b'd' ∷ []

abbrev nick : Name
nick = b'n' ∷ b'i' ∷ b'c' ∷ b'k' ∷ []

abbrev pub people : Name
people = b'p' ∷ []

abbrev pub schema : Schema
schema =
    record { name = id; data_type = DataType.integer; nullable = false }
    ∷ record { name = nick; data_type = DataType.varchar 20; nullable = true }
    ∷ []

abbrev pub table : TableInfo
table = record { table_id = 0; name = people; schema = schema; first_page_id = 6 }

abbrev pub catalog : CatalogState
catalog = record empty_state {
  tables_by_name = (people, table) ∷ [];
  tables_by_id = (0, people) ∷ [];
  next_table_id = 1;
  catalog_first_page = some 2;
}

created : create_table empty_state people schema 6 2 ≡ (ok table, catalog)
unfolding create_table
created = refl

abbrev pub session : SessionContext
session = record { database = []; schema = []; user = b'u' ∷ []; server_version = [] }

-- `id >= 6`
abbrev pub condition : Expr
condition =
    Expr.binary_op (Expr.column none id) BinaryOperator.gt_eq (Expr.literal (big_int (pos 6)))

abbrev pub bound_condition : BoundExpr
bound_condition =
    BoundExpr.binary_op (BoundExpr.column_ref 0 DataType.integer) BinaryOperator.gt_eq
      (BoundExpr.literal (integer (pos 6))) DataType.boolean

abbrev query : SelectStatement
query = record {
  items = SelectItem.expr (Expr.column none nick) ∷ SelectItem.wildcard ∷ [];
  from = some (record { name = people; alias = none });
  where_clause = some condition;
}

abbrev pub bound_query : BoundSelect
bound_query = record {
  table_id = some 0;
  projections =
      BoundExpr.column_ref 1 (DataType.varchar 20)
      ∷ BoundExpr.column_ref 0 DataType.integer
      ∷ BoundExpr.column_ref 1 (DataType.varchar 20)
      ∷ [];
  column_names = nick ∷ id ∷ nick ∷ [];
  column_types =
      some (DataType.varchar 20) ∷ some DataType.integer ∷ some (DataType.varchar 20) ∷ [];
  predicate = some bound_condition;
}

query_bound : bind_select catalog session query ≡ ok bound_query
unfolding bind_select
query_bound = refl

abbrev pub first_row : Tuple
first_row = integer (pos 5) ∷ varchar (104 ∷ 105 ∷ []) ∷ []

abbrev pub second_row : Tuple
second_row = integer (pos 7) ∷ null ∷ []

condition_bound :
    bind_expr session condition schema (some people) ≡ ok (bound_condition, some DataType.boolean)
unfolding bind_expr
condition_bound = refl

bind_expr-Yields_example : Yields second_row (bound_condition, some DataType.boolean)
bind_expr-Yields_example =
    bind_expr-Yields session condition schema (some people) (bound_condition, some DataType.boolean)
      second_row (tt, (tt, tt)) condition_bound

abbrev page : List ℕ
page =
    replicate 12 0
    ++ ((2 ∷ 0 ∷ 16 ∷ 0 ∷ 0 ∷ 0 ∷ 0 ∷ 0 ∷ 245 ∷ 15 ∷ 11 ∷ 0 ∷ 240 ∷ 15 ∷ 5 ∷ 0 ∷ [])
        ++ (replicate 4052 0
            ++ (2 ∷ 7 ∷ 0 ∷ 0 ∷ 0 ∷ 0 ∷ 5 ∷ 0 ∷ 0 ∷ 0 ∷ 2 ∷ 0 ∷ 0 ∷ 0 ∷ 104 ∷ 105 ∷ [])))

abbrev pages : PageId → Result (Unit {0}) (List ℕ)
pages page_id = ok page

-- The locks are the rows, the last that was locked first.
abbrev locks : LockOps (List Rid) (Unit {0})
locks = record {
  lock_row = λ held txn_id rid mode. (ok tt, rid ∷ held);
  lock_table = λ held txn_id table_id mode. (ok tt, held);
}

abbrev context : Context
context = record {
  catalog = catalog;
  txn = new_transaction 1 serializable 0 0;
  version_store = default_store;
}

abbrev at_slot : ℕ → Rid
at_slot slot = record { page_id = 6; slot = slot }

abbrev entries : List (Rid × List ℕ)
entries =
    (at_slot 0, 0 ∷ 5 ∷ 0 ∷ 0 ∷ 0 ∷ 2 ∷ 0 ∷ 0 ∷ 0 ∷ 104 ∷ 105 ∷ [])
    ∷ (at_slot 1, 2 ∷ 7 ∷ 0 ∷ 0 ∷ 0 ∷ [])
    ∷ []

entries_there : entries_from pages 2 (some 6) ≡ some (ok entries)
unfolding entries_from from_le_bytes
entries_there = refl

rows_read :
    read_rows locks context (types_of schema) [] entries
    ≡ some (first_row ∷ second_row ∷ [], at_slot 1 ∷ at_slot 0 ∷ [])
unfolding read_rows utf8_valid
rows_read = refl

answer :
    selected bound_query (first_row ∷ second_row ∷ []) ≡ (null ∷ integer (pos 7) ∷ null ∷ []) ∷ []
unfolding passes image
answer = refl

from_there : from_table catalog query.from ≡ ok (some table)
unfolding from_table
from_there = refl

table_there : table_by_id catalog 0 ≡ ok table
unfolding table_by_id
table_there = refl

table_locked : lock_scanned locks context [] 0 ≡ (ok tt, [])
unfolding lock_scanned
table_locked = refl

select-Drains_example :
    (p : LogicalPlan) × (e : Executor) × (e' : Executor) × (plan (BoundStatement.select bound_query)
      ≡ some p)
    × (build_executor (to_physical p) ≡ some e)
    × (init pages locks context e [] ≡ (ok tt, e', []))
    × Drains pages locks context e' []
        (selected bound_query (first_row ∷ second_row ∷ []))
        (at_slot 1 ∷ at_slot 0 ∷ [])
    × All
        (λ row. OfTypes row bound_query.column_types)
        (selected bound_query (first_row ∷ second_row ∷ []))
select-Drains_example =
    select-Drains pages locks context session query bound_query table 2 entries [] []
      (at_slot 1 ∷ at_slot 0 ∷ []) (first_row ∷ second_row ∷ []) query_bound from_there table_there
      table_locked entries_there rows_read
