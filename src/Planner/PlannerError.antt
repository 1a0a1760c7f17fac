-- ===== src/Planner/PlannerError.antt =====
-- crates/planner/src/error.rs. The texts of `TypeMismatch` are constructors.
use simple_rdbms.Common.{ℕ}
use simple_rdbms.Common.Int.{ℤ}
use simple_rdbms.Sql.Ast.{Name, BinaryOperator}
use simple_rdbms.Types.Value.{DataType}

pub data TypeFault : Type 0 where
  where_not_boolean not_needs_boolean negate_needs_numeric : DataType → TypeFault
  negate_of_null arithmetic_not_supported : TypeFault
  column_expects : (column : Name) (expected found : DataType) → TypeFault
  logic_needs_boolean : BinaryOperator → DataType → TypeFault
  cannot_compare : DataType → DataType → TypeFault

pub data PlannerError : Type 0 where
  unknown_table unknown_column ambiguous_column : Name → PlannerError
  undefined_parameter : (index : ℕ) → PlannerError
  column_count_mismatch parameter_count_mismatch : (expected found : ℕ) → PlannerError
  type_mismatch : TypeFault → PlannerError
  literal_out_of_range : (column : Name) (value : ℤ) (data_type : DataType) → PlannerError
