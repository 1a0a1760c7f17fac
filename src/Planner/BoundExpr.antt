-- ===== src/Planner/BoundExpr.antt =====
-- `BoundExpr` of crates/planner/src/binder.rs.
use simple_rdbms.Common.{ℕ, Bool}
use simple_rdbms.Types.Value.{DataType, Value}
use simple_rdbms.Sql.Ast.{BinaryOperator, UnaryOperator, SessionContextName}

pub data BoundExpr : Type 0 where
  literal : Value → BoundExpr
  column_ref : (index : ℕ) (data_type : DataType) → BoundExpr
  binary_op :
      (left : BoundExpr) (op : BinaryOperator) (right : BoundExpr) (data_type : DataType)
      → BoundExpr
  unary_op : (op : UnaryOperator) (expr : BoundExpr) (data_type : DataType) → BoundExpr
  is_null : (expr : BoundExpr) (negated : Bool) → BoundExpr
  session_context : (name : SessionContextName) (value : Value) → BoundExpr
