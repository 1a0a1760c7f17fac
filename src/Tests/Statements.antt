-- ===== src/Tests/Statements.antt =====
-- An INSERT, a statement with parameters and an indexed plan, on the table of Tests/Queries.
use simple_rdbms.Common.{◌≡◌, ◌≢◌, ◌≤◌, ◌⊎◌, refl, arith, true, false, none, some, List, [], ◌∷◌}
use simple_rdbms.Common.{length, ok, err, All, if◌then◌else◌, ◌==◌}
use simple_rdbms.Common.Int.{pos}
use simple_rdbms.Sql.Ast.{Expr, BinaryOperator, SelectItem, InsertStatement, Statement}
use simple_rdbms.Types.Utf8.{utf8_valid}
use simple_rdbms.Types.Value.{DataType, Value, null, integer, big_int}
use simple_rdbms.Catalog.Schema.{TableInfo}
use simple_rdbms.Catalog.State.{CatalogState, create_index_with_root}
use simple_rdbms.Planner.BoundExpr.{BoundExpr}
use simple_rdbms.Planner.PlannerError.{undefined_parameter, parameter_count_mismatch}
use simple_rdbms.Planner.Binder.{bind_expr}
use simple_rdbms.Planner.Binder.Statements.{BoundInsert, BoundStatement, bind_insert, get_table}
use simple_rdbms.Planner.Binder.InsertSound.{Fills, bind_insert-Fills}
use simple_rdbms.Planner.Parameters.{infer_parameter_types, max_parameter_index, scan_expr}
use simple_rdbms.Planner.Parameters.Values.{
  accepted, substitute_expr, substitute_statement, substitute_parameters,
}
use simple_rdbms.Planner.Parameters.Counts.{length-infer_parameter_types}
use simple_rdbms.Planner.Parameters.Substituted.{IsFilled, bind_expr-substitute_expr}
use simple_rdbms.Planner.Plan.{LogicalPlan, plan}
use simple_rdbms.Planner.Optimizer.{optimize, index_scan_rule}
use simple_rdbms.Planner.Optimizer.Keeps.{IsBounded, optimize-keeps}
use simple_rdbms.Tests.Queries.{id, people, schema, catalog, session, bound_condition}
use simple_rdbms.Tests.Queries.{bound_query, first_row, second_row}

greeting_valid : utf8_valid (104 ∷ 105 ∷ []) ≡ true
unfolding utf8_valid
greeting_valid = refl

-- `INSERT INTO p (id) VALUES (3), ($1)`, where the parameter has the value 4.
abbrev insertion : InsertStatement
insertion = record {
  table = people;
  columns = id ∷ [];
  values = (Expr.literal (big_int (pos 3)) ∷ []) ∷ (Expr.literal (big_int (pos 4)) ∷ []) ∷ [];
}

abbrev inserted : BoundInsert
inserted = record {
  table_id = 0;
  rows =
      (BoundExpr.literal (integer (pos 3)) ∷ BoundExpr.literal null ∷ [])
      ∷ (BoundExpr.literal (integer (pos 4)) ∷ BoundExpr.literal null ∷ [])
      ∷ [];
}

insertion_bound : bind_insert catalog session insertion ≡ ok inserted
unfolding bind_insert
insertion_bound = refl

bind_insert-Fills_example :
    (t : TableInfo) × (get_table catalog people ≡ ok t)
    × (inserted.table_id ≡ t.table_id)
    × All (λ row. Fills row t.schema) inserted.rows
bind_insert-Fills_example = bind_insert-Fills catalog session insertion inserted insertion_bound

-- `$1 <= id`
abbrev parametric : Expr
parametric = Expr.binary_op (Expr.parameter 1) BinaryOperator.lt_eq (Expr.column none id)

abbrev prepared : Statement
prepared = Statement.explain false (
    Statement.select (record {
      items = SelectItem.expr (Expr.parameter 2) ∷ [];
      from = some (record { name = people; alias = none });
      where_clause = some parametric;
    }))

abbrev one_value : List Value
one_value = big_int (pos 6) ∷ []

types_announced : infer_parameter_types prepared catalog ≡ ok (some DataType.integer ∷ none ∷ [])
unfolding infer_parameter_types
types_announced = refl

length-infer_parameter_types_example :
    (2 ≡ max_parameter_index prepared)
    × (substitute_parameters prepared one_value ≡ (
        if 2 == length one_value
        then accepted (substitute_statement prepared one_value)
        else some (err (parameter_count_mismatch 2 (length one_value)))))
length-infer_parameter_types_example =
    length-infer_parameter_types prepared catalog (some DataType.integer ∷ none ∷ []) one_value
      types_announced tt

abbrev two_values : List Value
two_values = big_int (pos 9) ∷ big_int (pos 6) ∷ []

-- `$2 <= id`
abbrev second_parametric : Expr
second_parametric = Expr.binary_op (Expr.parameter 2) BinaryOperator.lt_eq (Expr.column none id)

enough_values : scan_expr second_parametric 0 ≤ length two_values
unfolding scan_expr
enough_values = omega arith

bind_expr-substitute_expr_example :
    (filled : Expr) × (substitute_expr second_parametric two_values ≡ some filled)
    × IsFilled two_values second_parametric filled
    × (bind_expr session filled schema none ≢ err (undefined_parameter 1))
bind_expr-substitute_expr_example =
    bind_expr-substitute_expr session second_parametric two_values schema none 1 (omega arith, tt)
      enough_values

abbrev indexed : CatalogState
indexed = record catalog {
  indexes_by_name =
      (
        b'x' ∷ [],
        record {
          index_id = 0;
          name = b'x' ∷ [];
          table_id = 0;
          column_index = 0;
          catalog_rid = record { page_id = 9; slot = 0 };
          root_page_id_offset = 17;
          root_page_id = 11;
        },
      )
      ∷ [];
  indexes_by_id = (0, b'x' ∷ []) ∷ [];
  indexes_by_table = (0, 0 ∷ []) ∷ [];
  next_index_id = 1;
  index_catalog_first_page = some 9;
}

index_created :
    (create_index_with_root catalog (b'x' ∷ []) 0 0 11 9 (record { page_id = 9; slot = 0 }) 17).1
    ≡ indexed
unfolding create_index_with_root
index_created = refl

abbrev planned : LogicalPlan
planned =
    LogicalPlan.projection bound_query.projections
      (LogicalPlan.filter bound_condition (LogicalPlan.seq_scan 0))

query_planned : plan (BoundStatement.select bound_query) ≡ some planned
unfolding plan
query_planned = refl

bounded :
    optimize (index_scan_rule ∷ []) planned indexed
    ≡ LogicalPlan.projection bound_query.projections (
        LogicalPlan.filter bound_condition
          (LogicalPlan.index_scan 0 0 (some (1 ∷ 128 ∷ 0 ∷ 0 ∷ 6 ∷ [])) none))
unfolding optimize index_scan_rule
bounded = refl

optimize-keeps_example :
    (optimize (index_scan_rule ∷ []) planned indexed ≡ planned)
    ⊎ IsBounded indexed
        (first_row ∷ second_row ∷ [])
        bound_query.projections
        bound_query.predicate
        bound_query.table_id
        (optimize (index_scan_rule ∷ []) planned indexed)
optimize-keeps_example =
    optimize-keeps indexed (first_row ∷ second_row ∷ [])
      (
        (omega arith, (((omega arith, (omega arith, tt)), omega arith, greeting_valid), tt)),
        ((omega arith, (tt, tt)), tt),
      )
      bound_query planned (tt, omega arith) query_planned
