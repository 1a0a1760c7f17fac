-- ===== src/Planner/Parameters/Values.antt =====
-- crates/planner/src/parameters.rs: values in the places of parameters. `none` is a panic of
-- `values[(index - 1) as usize]`, at an index out of range or at index 0, whose predecessor overflows.
use simple_rdbms.Common.{ℕ, zero, suc, Option, none, some, List, [], ◌∷◌, length, get_elem?, ◌==◌}
use simple_rdbms.Common.{Result, ok, err, if◌then◌else◌}
use simple_rdbms.Common.Options.{◌>>=◌}
use simple_rdbms.Sql.Ast.{
  Expr, literal, session_context, column, binary_op, unary_op, is_null, parameter,
}
use simple_rdbms.Sql.Ast.{SelectItem, wildcard, SelectStatement, InsertStatement, Statement}
use simple_rdbms.Types.Value.{Value}
use simple_rdbms.Planner.PlannerError.{PlannerError, parameter_count_mismatch}
use simple_rdbms.Planner.Parameters.{max_parameter_index}

-- `values[(index - 1) as usize]`
abbrev pub value_at : ℕ → List Value → Option Value
value_at zero values = none
value_at (suc i) values = get_elem? values i

unfoldable pub substitute_expr : Expr → List Value → Option Expr
substitute_expr (parameter index) values = value_at index values >>= λ v. some (literal v)
substitute_expr (literal value) values = some (literal value)
substitute_expr (session_context name) values = some (session_context name)
substitute_expr (column table name) values = some (column table name)
substitute_expr (binary_op left op right) values = substitute_expr left values >>= λ l.
    substitute_expr right values >>= λ r. some (binary_op l op r)
substitute_expr (unary_op op expr) values =
    substitute_expr expr values >>= λ e. some (unary_op op e)
substitute_expr (is_null expr negated) values =
    substitute_expr expr values >>= λ e. some (is_null e negated)

unfoldable pub substitute_item : SelectItem → List Value → Option SelectItem
unfolding substitute_expr
substitute_item wildcard values = some wildcard
substitute_item (SelectItem.expr expr) values =
    substitute_expr expr values >>= λ e. some (SelectItem.expr e)

-- `into_iter().map(..).collect()`, which panics where the function does.
abbrev pub map_all {ℓ κ} : {A : Type ℓ} {B : Type κ} → (A → Option B) → List A → Option (List B)
map_all f [] = some []
map_all f (x ∷ xs) = f x >>= λ y. map_all f xs >>= λ ys. some (y ∷ ys)

abbrev pub substitute_where : Option Expr → List Value → Option (Option Expr)
substitute_where none values = some none
substitute_where (some expr) values = substitute_expr expr values >>= λ e. some (some e)

unfoldable pub substitute_select : SelectStatement → List Value → Option SelectStatement
unfolding substitute_item substitute_expr
substitute_select select values =
    map_all (λ item. substitute_item item values) select.items >>= λ items.
    substitute_where select.where_clause values >>= λ where_clause.
    some (record { items = items; from = select.from; where_clause = where_clause })

unfoldable pub substitute_insert : InsertStatement → List Value → Option InsertStatement
unfolding substitute_expr
substitute_insert insert values =
    map_all (map_all (λ expr. substitute_expr expr values)) insert.values >>= λ rows.
    some (record { table = insert.table; columns = insert.columns; values = rows })

unfoldable pub substitute_statement : Statement → List Value → Option Statement
unfolding substitute_select substitute_insert
substitute_statement (Statement.select select) values =
    substitute_select select values >>= λ s. some (Statement.select s)
substitute_statement (Statement.insert insert) values =
    substitute_insert insert values >>= λ i. some (Statement.insert i)
substitute_statement (Statement.explain verbose inner) values =
    substitute_statement inner values >>= λ s. some (Statement.explain verbose s)
substitute_statement other values = some other

-- `Ok` of what does not panic.
abbrev pub accepted : Option Statement → Option (Result PlannerError Statement)
accepted none = none
accepted (some statement) = some (ok statement)

unfoldable pub substitute_parameters :
    Statement → List Value → Option (Result PlannerError Statement)
unfolding max_parameter_index substitute_statement
substitute_parameters statement values =
    if max_parameter_index statement == length values
    then accepted (substitute_statement statement values)
    else some (err (parameter_count_mismatch (max_parameter_index statement) (length values)))
