-- ===== src/Sql/Ast.antt =====
-- crates/sql/src/ast.rs: statements and expressions. A name is its bytes.
use simple_rdbms.Common.{ℕ, Bool, Option, List}
use simple_rdbms.Types.Value.{DataType, Value}

abbrev pub Name : Type 0
Name = List ℕ

pub data BinaryOperator : Type 0 where
  eq not_eq lt lt_eq gt gt_eq : BinaryOperator
  and or : BinaryOperator
  plus minus multiply divide : BinaryOperator

pub data UnaryOperator : Type 0 where
  not negate : UnaryOperator

pub data SessionContextName : Type 0 where
  current_catalog current_schema current_user session_user version : SessionContextName

pub data Expr : Type 0 where
  literal : Value → Expr
  session_context : SessionContextName → Expr
  column : (table : Option Name) (name : Name) → Expr
  binary_op : (left : Expr) (op : BinaryOperator) (right : Expr) → Expr
  unary_op : (op : UnaryOperator) (expr : Expr) → Expr
  is_null : (expr : Expr) (negated : Bool) → Expr
  parameter : (index : ℕ) → Expr

pub record TableRef : Type 0 where
  pub name : Name
  pub alias : Option Name

pub data SelectItem : Type 0 where
  wildcard : SelectItem
  expr : Expr → SelectItem

pub record SelectStatement : Type 0 where
  pub items : List SelectItem
  pub from : Option TableRef
  pub where_clause : Option Expr

pub record InsertStatement : Type 0 where
  pub table : Name
  pub columns : List Name
  pub values : List (List Expr)

pub record ColumnDef : Type 0 where
  pub name : Name
  pub data_type : DataType
  pub nullable : Bool

pub record CreateTableStatement : Type 0 where
  pub table : Name
  pub columns : List ColumnDef

pub record CreateIndexStatement : Type 0 where
  pub index_name : Name
  pub table : Name
  pub column : Name

pub data Statement : Type 0 where
  select : SelectStatement → Statement
  insert : InsertStatement → Statement
  create_table : CreateTableStatement → Statement
  create_index : CreateIndexStatement → Statement
  begin commit rollback : Statement
  explain : (verbose : Bool) (inner : Statement) → Statement
