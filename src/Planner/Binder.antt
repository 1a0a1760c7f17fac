-- ===== src/Planner/Binder.antt =====
-- crates/planner/src/binder.rs: names become columns, and the types of expressions are checked.
pub mod Values
pub mod Sound
pub mod Statements
pub mod SelectSound
pub mod InsertSound
use simple_rdbms.Common.{
  ℕ, suc, ◌^◌, Bool, true, false, ◌&&◌, Option, none, some, List, [], ◌∷◌, ◌==◌,
}
use simple_rdbms.Common.{get_elem?, ltb, Result, ok, err, ◌>>=◌, if◌then◌else◌}
use simple_rdbms.Common.Int.{ℤ, pos, negsuc}
use simple_rdbms.Common.Options.{bytes_beq}
use simple_rdbms.Catalog.Schema.{Column, Schema, column_index}
use simple_rdbms.Sql.Ast.{Name, Expr, BinaryOperator, UnaryOperator, SessionContextName}
use simple_rdbms.Sql.Ast.{current_catalog, current_schema, current_user, session_user, version}
use simple_rdbms.Types.Value.{DataType, Value, null, boolean, integer, big_int, double, varchar}
use simple_rdbms.Types.Value.{data_type}
use simple_rdbms.Planner.BoundExpr.{BoundExpr, literal, column_ref, binary_op, unary_op, is_null}
use simple_rdbms.Planner.BoundExpr.{session_context}
use simple_rdbms.Planner.PlannerError.{PlannerError, unknown_table, unknown_column, type_mismatch}
use simple_rdbms.Planner.PlannerError.{undefined_parameter, literal_out_of_range, negate_of_null}
use simple_rdbms.Planner.PlannerError.{not_needs_boolean, negate_needs_numeric, cannot_compare}
use simple_rdbms.Planner.PlannerError.{logic_needs_boolean, arithmetic_not_supported}

pub record SessionContext : Type 0 where
  pub database : Name
  pub schema : Name
  pub user : Name
  pub server_version : Name

unfoldable pub value_of : SessionContext → SessionContextName → Value
value_of s current_catalog = varchar s.database
value_of s current_schema = varchar s.schema
value_of s current_user = varchar s.user
value_of s session_user = varchar s.user
value_of s version = varchar s.server_version

abbrev pub is_boolean : DataType → Bool
is_boolean DataType.boolean = true
is_boolean _ = false

abbrev pub is_numeric : DataType → Bool
is_numeric DataType.integer = true
is_numeric DataType.big_int = true
is_numeric DataType.double = true
is_numeric _ = false

abbrev pub data_types_match : DataType → DataType → Bool
data_types_match (DataType.varchar m) (DataType.varchar n) = true
data_types_match DataType.boolean DataType.boolean = true
data_types_match DataType.integer DataType.integer = true
data_types_match DataType.big_int DataType.big_int = true
data_types_match DataType.double DataType.double = true
data_types_match _ _ = false

-- `i32::try_from(v).is_ok()`
abbrev pub fits_i32 : ℤ → Bool
fits_i32 (pos n) = ltb n (2 ^ 31)
fits_i32 (negsuc n) = ltb n (2 ^ 31)

unfoldable pub coerce_literal_to_column : Value → DataType → Name → Result PlannerError Value
coerce_literal_to_column (big_int v) DataType.integer column_name =
    if fits_i32 v then ok (integer v) else err (literal_out_of_range column_name v DataType.integer)
coerce_literal_to_column value target column_name = ok value

-- The type of an expression; `none` is that of NULL.
abbrev pub Typed : Type 0
Typed = BoundExpr × Option DataType

-- `schema.columns()[index].name`, for a column that is there.
abbrev pub column_name : Schema → ℕ → Name
column_name schema index = elim (get_elem? schema index) [ some c ↦ c.name | none ↦ [] ]

unfoldable pub coerce_comparison_operands :
    Schema → Typed → Typed → Result PlannerError (Typed × Typed)
unfolding coerce_literal_to_column data_type
coerce_comparison_operands schema (literal v, left_type) (column_ref index col_type, right_type) =
    do
      coerced ← coerce_literal_to_column v col_type (column_name schema index)
      ok ((literal coerced, data_type coerced), (column_ref index col_type, right_type))
coerce_comparison_operands schema (column_ref index col_type, left_type) (literal v, right_type) =
    do
      coerced ← coerce_literal_to_column v col_type (column_name schema index)
      ok ((column_ref index col_type, left_type), (literal coerced, data_type coerced))
coerce_comparison_operands schema left right = ok (left, right)

-- The type of an operand that is not Boolean.
abbrev pub not_boolean : Option DataType → Option DataType
not_boolean none = none
not_boolean (some t) = if is_boolean t then none else some t

-- The arm of `And` and `Or`.
unfoldable pub logic_of : BinaryOperator → Typed → Typed → Result PlannerError Typed
logic_of op (left, left_type) (right, right_type) = elim (not_boolean left_type) [
  | some t ↦ err (type_mismatch (logic_needs_boolean op t))
  | none ↦ elim (not_boolean right_type) [
    | some t ↦ err (type_mismatch (logic_needs_boolean op t))
    | none ↦ ok (binary_op left op right DataType.boolean, some DataType.boolean)
  ]
]

-- Two types of which neither is that of NULL have to match.
abbrev pub comparable : Option DataType → Option DataType → Bool
comparable (some l) (some r) = data_types_match l r
comparable _ _ = true

abbrev pub the_type : Option DataType → DataType
the_type (some t) = t
the_type none = DataType.boolean

-- The arm of the comparisons.
unfoldable pub comparison_of : BinaryOperator → Typed → Typed → Result PlannerError Typed
comparison_of op (left, left_type) (right, right_type) =
    if comparable left_type right_type
    then ok (binary_op left op right DataType.boolean, some DataType.boolean)
    else err (type_mismatch (cannot_compare (the_type left_type) (the_type right_type)))

-- The match of `bind_binary_op` on the operator.
unfoldable pub binary_of : BinaryOperator → Typed → Typed → Result PlannerError Typed
unfolding logic_of comparison_of
binary_of BinaryOperator.and left right = logic_of BinaryOperator.and left right
binary_of BinaryOperator.or left right = logic_of BinaryOperator.or left right
binary_of BinaryOperator.plus left right = err (type_mismatch arithmetic_not_supported)
binary_of BinaryOperator.minus left right = err (type_mismatch arithmetic_not_supported)
binary_of BinaryOperator.multiply left right = err (type_mismatch arithmetic_not_supported)
binary_of BinaryOperator.divide left right = err (type_mismatch arithmetic_not_supported)
binary_of op left right = comparison_of op left right

-- `bind_unary_op` on the bound operand.
unfoldable pub unary_of : UnaryOperator → Typed → Result PlannerError Typed
unary_of UnaryOperator.not (bound, operand_type) = elim (not_boolean operand_type) [
  | some t ↦ err (type_mismatch (not_needs_boolean t))
  | none ↦ ok (unary_op UnaryOperator.not bound DataType.boolean, some DataType.boolean)
]
unary_of UnaryOperator.negate (bound, none) = err (type_mismatch negate_of_null)
unary_of UnaryOperator.negate (bound, some t) =
    if is_numeric t
    then ok (unary_op UnaryOperator.negate bound t, some t)
    else err (type_mismatch (negate_needs_numeric t))

-- A qualifier has to be the name by which the table is in scope.
abbrev pub in_scope : Option Name → Name → Bool
in_scope none qualifier = false
in_scope (some scope) qualifier = bytes_beq scope qualifier

unfoldable pub bind_column : Schema → Name → Result PlannerError Typed
unfolding column_index
bind_column schema name = elim (column_index schema name) [
  | none ↦ err (unknown_column name)
  | some index ↦ elim (get_elem? schema index) [
    | some c ↦ ok (column_ref index c.data_type, some c.data_type)
    | none ↦ err (unknown_column name)
  ]
]

unfoldable pub bind_expr :
    SessionContext → Expr → Schema → (table_scope : Option Name) → Result PlannerError Typed
unfolding value_of data_type bind_column unary_of coerce_comparison_operands binary_of
bind_expr s (Expr.literal value) schema scope = ok (literal value, data_type value)
bind_expr s (Expr.session_context name) schema scope =
    ok (session_context name (value_of s name), data_type (value_of s name))
bind_expr s (Expr.column none name) schema scope = bind_column schema name
bind_expr s (Expr.column (some qualifier) name) schema scope =
    if in_scope scope qualifier then bind_column schema name else err (unknown_table qualifier)
bind_expr s (Expr.unary_op op expr) schema scope =
    bind_expr s expr schema scope >>= λ bound. unary_of op bound
bind_expr s (Expr.binary_op left op right) schema scope = bind_expr s left schema scope >>= λ l.
    bind_expr s right schema scope >>= λ r.
    coerce_comparison_operands schema l r >>= λ p. binary_of op p.0 p.1
bind_expr s (Expr.is_null expr negated) schema scope =
    bind_expr s expr schema scope >>= λ bound. ok (is_null bound.0 negated, some DataType.boolean)
bind_expr s (Expr.parameter index) schema scope = err (undefined_parameter index)
