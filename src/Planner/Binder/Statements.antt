-- ===== src/Planner/Binder/Statements.antt =====
-- The statements of crates/planner/src/binder.rs: `bind` and what it calls.
use simple_rdbms.Common.{ℕ, suc, ◌+◌, Bool, Option, none, some, List, [], ◌∷◌, ◌++◌, ◌==◌}
use simple_rdbms.Common.{map, length, get_elem?, set, Result, ok, err, ◌>>=◌, if◌then◌else◌}
use simple_rdbms.Common.Decimal.{decimal}
use simple_rdbms.Ids.{TableId}
use simple_rdbms.Catalog.Schema.{Column, Schema, TableInfo, column_index}
use simple_rdbms.Catalog.State.{CatalogState, table_by_name}
use simple_rdbms.Sql.Ast.{
  Name, Expr, SelectItem, wildcard, TableRef, SelectStatement, InsertStatement,
}
use simple_rdbms.Sql.Ast.{CreateTableStatement, CreateIndexStatement, ColumnDef, Statement}
use simple_rdbms.Sql.Ast.{SessionContextName, current_catalog, current_schema, current_user}
use simple_rdbms.Sql.Ast.{session_user, version}
use simple_rdbms.Types.Value.{DataType, null, data_type}
use simple_rdbms.Planner.BoundExpr.{BoundExpr, literal, column_ref}
use simple_rdbms.Planner.PlannerError.{PlannerError, unknown_table, unknown_column, type_mismatch}
use simple_rdbms.Planner.PlannerError.{column_count_mismatch, where_not_boolean, column_expects}
use simple_rdbms.Planner.Binder.{SessionContext, Typed, bind_expr, not_boolean, data_types_match}
use simple_rdbms.Planner.Binder.{coerce_literal_to_column}

pub record BoundSelect : Type 0 where
  pub table_id : Option TableId
  pub projections : List BoundExpr
  pub column_names : List Name
  pub column_types : List (Option DataType)
  pub predicate : Option BoundExpr

pub record BoundInsert : Type 0 where
  pub table_id : TableId
  pub rows : List (List BoundExpr)

pub record BoundColumnDef : Type 0 where
  pub name : Name
  pub data_type : DataType
  pub nullable : Bool

pub record BoundCreateTable : Type 0 where
  pub table_name : Name
  pub columns : List BoundColumnDef

pub record BoundCreateIndex : Type 0 where
  pub index_name : Name
  pub table_id : TableId
  pub column_index : ℕ

pub data BoundStatement : Type 0 where
  select : BoundSelect → BoundStatement
  insert : BoundInsert → BoundStatement
  create_table : BoundCreateTable → BoundStatement
  create_index : BoundCreateIndex → BoundStatement
  explain : (verbose : Bool) (inner : BoundStatement) → BoundStatement

unfoldable pub get_table : CatalogState → Name → Result PlannerError TableInfo
unfolding table_by_name
get_table catalog name = elim (table_by_name catalog name) [
  | ok info ↦ ok info
  | err e ↦ err (unknown_table name)
]

-- The vectors that `bind_select` fills.
pub record Columns : Type 0 where
  pub projections : List BoundExpr
  pub names : List Name
  pub types : List (Option DataType)

abbrev pub no_columns : Columns
no_columns = record { projections = []; names = []; types = [] }

abbrev pub push : Columns → BoundExpr → Name → Option DataType → Columns
push c e name t = record {
  projections = c.projections ++ e ∷ [];
  names = c.names ++ name ∷ [];
  types = c.types ++ t ∷ [];
}

-- The loop over the columns, from the column `index` on.
unfoldable pub push_columns : Columns → ℕ → Schema → Columns
push_columns c index [] = c
push_columns c index (column ∷ columns) =
    push_columns (push c (column_ref index column.data_type) column.name (some column.data_type))
      (suc index) columns

-- `name.column_name()`
unfoldable pub context_column_name : SessionContextName → Name
context_column_name current_catalog =
    b'c' ∷ b'u' ∷ b'r' ∷ b'r' ∷ b'e' ∷ b'n' ∷ b't' ∷ b'_' ∷ b'c' ∷ b'a' ∷ b't' ∷ b'a' ∷ b'l' ∷ b'o'
    ∷ b'g' ∷ []
context_column_name current_schema =
    b'c' ∷ b'u' ∷ b'r' ∷ b'r' ∷ b'e' ∷ b'n' ∷ b't' ∷ b'_' ∷ b's' ∷ b'c' ∷ b'h' ∷ b'e' ∷ b'm' ∷ b'a'
    ∷ []
context_column_name current_user =
    b'c' ∷ b'u' ∷ b'r' ∷ b'r' ∷ b'e' ∷ b'n' ∷ b't' ∷ b'_' ∷ b'u' ∷ b's' ∷ b'e' ∷ b'r' ∷ []
context_column_name session_user =
    b's' ∷ b'e' ∷ b's' ∷ b's' ∷ b'i' ∷ b'o' ∷ b'n' ∷ b'_' ∷ b'u' ∷ b's' ∷ b'e' ∷ b'r' ∷ []
context_column_name version = b'v' ∷ b'e' ∷ b'r' ∷ b's' ∷ b'i' ∷ b'o' ∷ b'n' ∷ []

-- The name of the column that an expression makes, with `n` columns before it.
unfoldable pub item_name : Expr → ℕ → Name
unfolding context_column_name
item_name (Expr.column table name) n = name
item_name (Expr.session_context name) n = context_column_name name
item_name expr n = (b'c' ∷ b'o' ∷ b'l' ∷ b'u' ∷ b'm' ∷ b'n' ∷ []) ++ decimal (n + 1)

unfoldable pub bind_items :
    SessionContext → Schema → Option Name → Columns → List SelectItem → Result PlannerError Columns
unfolding push_columns bind_expr item_name
bind_items s schema scope c [] = ok c
bind_items s schema scope c (wildcard ∷ items) =
    bind_items s schema scope (push_columns c 0 schema) items
bind_items s schema scope c (SelectItem.expr expr ∷ items) =
    bind_expr s expr schema scope >>= λ bound.
    bind_items s schema scope (push c bound.0 (item_name expr (length c.names)) bound.1) items

-- The match on the WHERE clause.
unfoldable pub bind_predicate :
    SessionContext → Schema → Option Name → Option Expr → Result PlannerError (Option BoundExpr)
unfolding bind_expr
bind_predicate s schema scope none = ok none
bind_predicate s schema scope (some expr) = bind_expr s expr schema scope >>= λ bound.
    elim (not_boolean bound.1) [
      | some t ↦ err (type_mismatch (where_not_boolean t))
      | none ↦ ok (some bound.0)
    ]

-- The table of the FROM clause.
unfoldable pub from_table : CatalogState → Option TableRef → Result PlannerError (Option TableInfo)
unfolding get_table
from_table catalog none = ok none
from_table catalog (some from) = get_table catalog from.name >>= λ info. ok (some info)

abbrev pub schema_of : Option TableInfo → Schema
schema_of none = []
schema_of (some info) = info.schema

abbrev pub id_of : Option TableInfo → Option TableId
id_of none = none
id_of (some info) = some info.table_id

-- `from.alias.as_deref().unwrap_or(from.name.as_str())`
abbrev pub scope_name : Option Name → Name → Name
scope_name none name = name
scope_name (some alias) name = alias

abbrev pub scope_of : Option TableRef → Option Name
scope_of none = none
scope_of (some from) = some (scope_name from.alias from.name)

unfoldable pub bind_select :
    CatalogState → SessionContext → SelectStatement → Result PlannerError BoundSelect
unfolding from_table bind_items bind_predicate
bind_select catalog s statement = from_table catalog statement.from >>= λ table.
    bind_items s (schema_of table) (scope_of statement.from) no_columns statement.items >>= λ c.
    bind_predicate s (schema_of table) (scope_of statement.from) statement.where_clause
    >>= λ predicate. ok (record {
      table_id = id_of table;
      projections = c.projections;
      column_names = c.names;
      column_types = c.types;
      predicate = predicate;
    })

-- The columns that the statement names, by their places.
unfoldable pub named_indices : Schema → List Name → Result PlannerError (List ℕ)
unfolding column_index
named_indices schema [] = ok []
named_indices schema (name ∷ names) = elim (column_index schema name) [
  | none ↦ err (unknown_column name)
  | some index ↦ named_indices schema names >>= λ indices. ok (index ∷ indices)
]

-- `(0..n)`, from `i` on.
abbrev pub indices_from : ℕ → Schema → List ℕ
indices_from i [] = []
indices_from i (column ∷ columns) = i ∷ indices_from (suc i) columns

unfoldable pub target_indices : Schema → List Name → Result PlannerError (List ℕ)
unfolding named_indices
target_indices schema [] = ok (indices_from 0 schema)
target_indices schema (name ∷ names) = named_indices schema (name ∷ names)

-- A literal takes the type of the column.
unfoldable pub coerce_bound : Column → Typed → Result PlannerError Typed
unfolding coerce_literal_to_column data_type
coerce_bound column (literal value, t) =
    coerce_literal_to_column value column.data_type column.name >>= λ coerced.
    ok (literal coerced, data_type coerced)
coerce_bound column other = ok other

-- The check of the type of a value against that of its column; the value if it passes.
unfoldable pub check_column : Column → Typed → Result PlannerError BoundExpr
check_column column (bound, none) = ok bound
check_column column (bound, some t) =
    if data_types_match t column.data_type
    then ok bound
    else err (type_mismatch (column_expects column.name column.data_type t))

-- The loop over the values of a row and the places of their columns; a place out of the schema,
-- at which the code would panic, ends it.
unfoldable pub bind_values :
    SessionContext
    → Schema
    → List Expr
    → List ℕ
    → List BoundExpr
    → Result PlannerError (List BoundExpr)
unfolding bind_expr coerce_bound check_column
bind_values s schema [] places row = ok row
bind_values s schema (expr ∷ exprs) [] row = ok row
bind_values s schema (expr ∷ exprs) (place ∷ places) row = elim (get_elem? schema place) [
  | none ↦ ok row
  | some column ↦ bind_expr s expr [] none >>= λ bound. coerce_bound column bound >>= λ coerced.
      check_column column coerced >>= λ e. bind_values s schema exprs places (set row place e)
]

abbrev pub null_row : Schema → List BoundExpr
null_row schema = map (λ c. literal null) schema

unfoldable pub bind_rows :
    SessionContext
    → Schema
    → List ℕ
    → List (List Expr)
    → Result PlannerError (List (List BoundExpr))
unfolding bind_values
bind_rows s schema places [] = ok []
bind_rows s schema places (row ∷ rows) =
    if length row == length places
    then (bind_values s schema row places (null_row schema) >>= λ bound.
        bind_rows s schema places rows >>= λ others. ok (bound ∷ others))
    else err (column_count_mismatch (length places) (length row))

unfoldable pub bind_insert :
    CatalogState → SessionContext → InsertStatement → Result PlannerError BoundInsert
unfolding get_table target_indices bind_rows
bind_insert catalog s statement = get_table catalog statement.table >>= λ table.
    target_indices table.schema statement.columns >>= λ places.
    bind_rows s table.schema places statement.values >>= λ rows.
    ok (record { table_id = table.table_id; rows = rows })

abbrev pub bound_column : ColumnDef → BoundColumnDef
bound_column c = record { name = c.name; data_type = c.data_type; nullable = c.nullable }

abbrev pub bind_create_table : CreateTableStatement → BoundCreateTable
bind_create_table create = record {
  table_name = create.table;
  columns = map bound_column create.columns;
}

unfoldable pub bind_create_index :
    CatalogState → CreateIndexStatement → Result PlannerError BoundCreateIndex
unfolding get_table column_index
bind_create_index catalog create = get_table catalog create.table >>= λ table.
    elim (column_index table.schema create.column) [
      | none ↦ err (unknown_column create.column)
      | some index ↦ ok (record {
        index_name = create.index_name;
        table_id = table.table_id;
        column_index = index;
      })
    ]

-- `none` stands for `unreachable!`, at a statement that controls a transaction.
unfoldable pub bind :
    CatalogState → SessionContext → Statement → Option (Result PlannerError BoundStatement)
unfolding bind_select bind_insert bind_create_index
bind catalog s (Statement.select x) =
    some (bind_select catalog s x >>= λ b. ok (BoundStatement.select b))
bind catalog s (Statement.insert x) =
    some (bind_insert catalog s x >>= λ b. ok (BoundStatement.insert b))
bind catalog s (Statement.create_table x) =
    some (ok (BoundStatement.create_table (bind_create_table x)))
bind catalog s (Statement.create_index x) =
    some (bind_create_index catalog x >>= λ b. ok (BoundStatement.create_index b))
bind catalog s (Statement.explain verbose inner) = elim (bind catalog s inner) [
  | none ↦ none
  | some bound ↦ some (bound >>= λ b. ok (BoundStatement.explain verbose b))
]
bind catalog s _ = none
