-- ===== src/Planner/Parameters.antt =====
-- crates/planner/src/parameters.rs: the types of a statement's parameters, and the values put in
-- their places. Parameters count from 1. `collect_expr` and `collect_binary` never fail, and answer
-- the map that they fill.
pub mod Values
pub mod Counts
pub mod Substituted
use simple_rdbms.Common.{
  ℕ, zero, suc, ◌+◌, ◌-◌, Bool, true, false, Option, none, some, List, [], ◌∷◌, map,
}
use simple_rdbms.Common.{
  length, get_or, get_elem?, ltb, ◌==◌, Result, ok, err, ◌>>=◌, if◌then◌else◌,
}
use simple_rdbms.Common.Map.{Map, nat_eq, get, insert}
use simple_rdbms.Catalog.Schema.{Column, Schema, TableInfo, column_index}
use simple_rdbms.Catalog.State.{CatalogState}
use simple_rdbms.Sql.Ast.{
  Name, Expr, literal, session_context, column, binary_op, unary_op, is_null,
}
use simple_rdbms.Sql.Ast.{
  parameter, SelectItem, wildcard, SelectStatement, InsertStatement, Statement,
}
use simple_rdbms.Types.Value.{DataType, Value, null}
use simple_rdbms.Planner.PlannerError.{PlannerError, undefined_parameter, parameter_count_mismatch}
use simple_rdbms.Planner.Binder.{in_scope}
use simple_rdbms.Planner.Binder.Statements.{get_table, from_table, scope_of, target_indices}

abbrev pub ParameterTypes : Type 0
ParameterTypes = Map ℕ (Option DataType)

-- `entry(index).or_insert(None)`
abbrev pub or_untyped : Option (Option DataType) → Option DataType
or_untyped none = none
or_untyped (some t) = t

-- A type that is known stays.
abbrev pub first_known : Option DataType → Option DataType → Option DataType
first_known none t = t
first_known (some known) t = some known

unfoldable pub record_type : ParameterTypes → ℕ → Option DataType → ParameterTypes
unfolding get insert
record_type types index t = insert index (first_known (or_untyped (get index types)) t) types

-- The type of the schema's column of the name.
unfoldable pub type_of_name : Schema → Name → Option DataType
unfolding column_index
type_of_name schema name = elim (column_index schema name) [
  | none ↦ none
  | some index ↦ elim (get_elem? schema index) [ none ↦ none | some c ↦ some c.data_type ]
]

unfoldable pub column_type : Expr → Option Schema → (table_scope : Option Name) → Option DataType
unfolding type_of_name
column_type (column none name) (some schema) scope = type_of_name schema name
column_type (column (some qualifier) name) (some schema) scope =
    if in_scope scope qualifier then type_of_name schema name else none
column_type _ _ scope = none

-- A parameter beside an operand takes its type; of another expression the parameters are collected.
abbrev pub operand : Expr → Option DataType → ParameterTypes → ParameterTypes → ParameterTypes
operand (parameter index) t types collected = record_type types index t
operand _ t types collected = collected

unfoldable pub collect_expr : Expr → Option Schema → Option Name → ParameterTypes → ParameterTypes
unfolding record_type column_type
collect_expr (parameter index) schema scope types = record_type types index none
collect_expr (literal value) schema scope types = types
collect_expr (column table name) schema scope types = types
collect_expr (session_context name) schema scope types = types
collect_expr (unary_op op expr) schema scope types = collect_expr expr schema scope types
collect_expr (is_null expr negated) schema scope types = collect_expr expr schema scope types
collect_expr (binary_op left op right) schema scope types =
    let types' =
      operand left (column_type right schema scope) types (collect_expr left schema scope types) in
    operand right (column_type left schema scope) types' (collect_expr right schema scope types')

unfoldable pub collect_items :
    List SelectItem → Option Schema → Option Name → ParameterTypes → ParameterTypes
unfolding collect_expr
collect_items [] schema scope types = types
collect_items (wildcard ∷ items) schema scope types = collect_items items schema scope types
collect_items (SelectItem.expr expr ∷ items) schema scope types =
    collect_items items schema scope (collect_expr expr schema scope types)

abbrev pub collect_where :
    Option Expr → Option Schema → Option Name → ParameterTypes → ParameterTypes
collect_where none schema scope types = types
collect_where (some expr) schema scope types = collect_expr expr schema scope types

abbrev pub schema_if : Option TableInfo → Option Schema
schema_if none = none
schema_if (some table) = some table.schema

unfoldable pub collect_select :
    SelectStatement → CatalogState → ParameterTypes → Result PlannerError ParameterTypes
unfolding from_table collect_items collect_expr
collect_select select catalog types = from_table catalog select.from >>= λ table. ok (
    collect_where select.where_clause (schema_if table) (scope_of select.from)
      (collect_items select.items (schema_if table) (scope_of select.from) types))

-- `schema.columns()[col_index].data_type`, of a column that is there.
abbrev pub type_at : Schema → ℕ → Option DataType
type_at schema index = elim (get_elem? schema index) [ none ↦ none | some c ↦ some c.data_type ]

unfoldable pub collect_row : Schema → List Expr → List ℕ → ParameterTypes → ParameterTypes
unfolding record_type collect_expr
collect_row schema [] places types = types
collect_row schema (expr ∷ exprs) [] types = types
collect_row schema (expr ∷ exprs) (place ∷ places) types =
    collect_row schema exprs places
      (operand expr (type_at schema place) types (collect_expr expr none none types))

unfoldable pub collect_rows : Schema → List (List Expr) → List ℕ → ParameterTypes → ParameterTypes
unfolding collect_row
collect_rows schema [] places types = types
collect_rows schema (row ∷ rows) places types =
    collect_rows schema rows places (collect_row schema row places types)

unfoldable pub collect_insert :
    InsertStatement → CatalogState → ParameterTypes → Result PlannerError ParameterTypes
unfolding get_table target_indices collect_rows
collect_insert insert catalog types = get_table catalog insert.table >>= λ table.
    target_indices table.schema insert.columns >>= λ places.
    ok (collect_rows table.schema insert.values places types)

unfoldable pub collect_statement :
    Statement → CatalogState → ParameterTypes → Result PlannerError ParameterTypes
unfolding collect_select collect_insert
collect_statement (Statement.select select) catalog types = collect_select select catalog types
collect_statement (Statement.insert insert) catalog types = collect_insert insert catalog types
collect_statement (Statement.explain verbose inner) catalog types =
    collect_statement inner catalog types
collect_statement _ catalog types = ok types

-- `types.keys().max()`, 0 if there are none.
abbrev pub max_key : ParameterTypes → ℕ
max_key [] = 0
max_key ((k, t) ∷ m) = let rest = max_key m in if ltb rest k then k else rest

-- The loop over the `n` indices from `index` on.
unfoldable pub types_from : ℕ → ℕ → ParameterTypes → Result PlannerError (List (Option DataType))
unfolding get
types_from zero index types = ok []
types_from (suc n) index types =
    let rest = types_from n (suc index) types in
    elim (get index types) [
      | none ↦ err (undefined_parameter index)
      | some t ↦ rest >>= λ ts. ok (t ∷ ts)
    ]

unfoldable pub finalize : ParameterTypes → Result PlannerError (List (Option DataType))
unfolding types_from
finalize types = types_from (max_key types) 1 types

unfoldable pub infer_parameter_types :
    Statement → CatalogState → Result PlannerError (List (Option DataType))
unfolding collect_statement finalize
infer_parameter_types statement catalog =
    collect_statement statement catalog [] >>= λ types. finalize types

unfoldable pub scan_expr : Expr → ℕ → ℕ
scan_expr (parameter index) max = if ltb max index then index else max
scan_expr (literal value) max = max
scan_expr (column table name) max = max
scan_expr (session_context name) max = max
scan_expr (unary_op op expr) max = scan_expr expr max
scan_expr (is_null expr negated) max = scan_expr expr max
scan_expr (binary_op left op right) max = scan_expr right (scan_expr left max)

unfoldable pub scan_items : List SelectItem → ℕ → ℕ
unfolding scan_expr
scan_items [] max = max
scan_items (wildcard ∷ items) max = scan_items items max
scan_items (SelectItem.expr expr ∷ items) max = scan_items items (scan_expr expr max)

abbrev pub scan_where : Option Expr → ℕ → ℕ
scan_where none max = max
scan_where (some expr) max = scan_expr expr max

unfoldable pub scan_row : List Expr → ℕ → ℕ
unfolding scan_expr
scan_row [] max = max
scan_row (expr ∷ exprs) max = scan_row exprs (scan_expr expr max)

unfoldable pub scan_rows : List (List Expr) → ℕ → ℕ
unfolding scan_row
scan_rows [] max = max
scan_rows (row ∷ rows) max = scan_rows rows (scan_row row max)

unfoldable pub scan_statement : Statement → ℕ → ℕ
unfolding scan_items scan_rows scan_expr
scan_statement (Statement.select select) max =
    scan_where select.where_clause (scan_items select.items max)
scan_statement (Statement.insert insert) max = scan_rows insert.values max
scan_statement (Statement.explain verbose inner) max = scan_statement inner max
scan_statement _ max = max

unfoldable pub max_parameter_index : Statement → ℕ
unfolding scan_statement
max_parameter_index statement = scan_statement statement 0

-- The index of a parameter is at least 1 and at most the number of values.
