-- ===== src/Planner/Parameters/Counts.antt =====
-- The parameters whose types parameters.rs announces are as many as the values that it asks for.
use simple_rdbms.Common.{ℕ, zero, suc, ◌≤◌, ◌≡◌, refl, sym, ap, ◌∙◌, Option, none, some}
use simple_rdbms.Common.{List, [], ◌∷◌, length, ltb, ◌==◌, ok, err, ◌>>=◌, split_ok, All, arith}
use simple_rdbms.Common.{if◌then◌else◌, inl, inr, Option-cases, subst}
use simple_rdbms.Common.Map.{nat_eq, get, insert, remove}
use simple_rdbms.Catalog.Schema.{Schema}
use simple_rdbms.Catalog.State.{CatalogState}
use simple_rdbms.Sql.Ast.{
  Name, Expr, literal, session_context, column, binary_op, unary_op, is_null,
}
use simple_rdbms.Sql.Ast.{parameter, SelectItem, wildcard, InsertStatement, Statement}
use simple_rdbms.Types.Value.{DataType, Value}
use simple_rdbms.Planner.PlannerError.{parameter_count_mismatch}
use simple_rdbms.Planner.Binder.Statements.{get_table, from_table, scope_of, target_indices}
use simple_rdbms.Planner.Parameters.{ParameterTypes, record_type, column_type}
use simple_rdbms.Planner.Parameters.{operand, collect_expr, collect_items, collect_where, schema_if}
use simple_rdbms.Planner.Parameters.{
  collect_select, type_at, collect_row, collect_rows, collect_insert,
}
use simple_rdbms.Planner.Parameters.{collect_statement, max_key, types_from, finalize}
use simple_rdbms.Planner.Parameters.{
  infer_parameter_types, scan_expr, scan_items, scan_where, scan_row,
}
use simple_rdbms.Planner.Parameters.{scan_rows, scan_statement, max_parameter_index}
use simple_rdbms.Planner.Parameters.Values.{accepted, substitute_statement, substitute_parameters}

max_key-remove :
    (i : ℕ) (m : ParameterTypes)
    → (if ltb (max_key (remove i m)) i then i else max_key (remove i m))
      ≡ (if ltb (max_key m) i then i else max_key m)
unfolding remove
max_key-remove i [] = refl
max_key-remove i ((k, t) ∷ m) = ground (arith, max_key-remove i m)

max_key-record_type :
    (types : ParameterTypes) (i : ℕ) (t : Option DataType)
    → max_key (record_type types i t) ≡ (if ltb (max_key types) i then i else max_key types)
unfolding record_type insert
max_key-record_type types i t = max_key-remove i types

max_key-operand :
    (e : Expr) (t : Option DataType) (types collected : ParameterTypes)
    → max_key collected ≡ scan_expr e (max_key types)
    → max_key (operand e t types collected) ≡ scan_expr e (max_key types)
unfolding scan_expr
max_key-operand (parameter index) t types collected h = max_key-record_type types index t
max_key-operand e t types collected h = h

max_key-collect_expr :
    (e : Expr) (schema : Option Schema) (scope : Option Name) (types : ParameterTypes)
    → max_key (collect_expr e schema scope types) ≡ scan_expr e (max_key types)
unfolding collect_expr scan_expr
max_key-collect_expr (parameter index) schema scope types = max_key-record_type types index none
max_key-collect_expr (literal value) schema scope types = refl
max_key-collect_expr (column table name) schema scope types = refl
max_key-collect_expr (session_context name) schema scope types = refl
max_key-collect_expr (unary_op op e) schema scope types = max_key-collect_expr e schema scope types
max_key-collect_expr (is_null e negated) schema scope types =
    max_key-collect_expr e schema scope types
max_key-collect_expr (binary_op left op right) schema scope types =
    let t = column_type right schema scope in
    let types' = operand left t types (collect_expr left schema scope types) in
    max_key-operand right (column_type left schema scope) types'
      (collect_expr right schema scope types') (max_key-collect_expr right schema scope types')
    ∙ ap (scan_expr right) (
        max_key-operand left t types (collect_expr left schema scope types)
          (max_key-collect_expr left schema scope types))

max_key-collect_items :
    (items : List SelectItem) (schema : Option Schema) (scope : Option Name)
    (types : ParameterTypes)
    → max_key (collect_items items schema scope types) ≡ scan_items items (max_key types)
unfolding collect_items scan_items
max_key-collect_items [] schema scope types = refl
max_key-collect_items (wildcard ∷ items) schema scope types =
    max_key-collect_items items schema scope types
max_key-collect_items (SelectItem.expr e ∷ items) schema scope types =
    max_key-collect_items items schema scope (collect_expr e schema scope types)
    ∙ ap (scan_items items) (max_key-collect_expr e schema scope types)

max_key-collect_where :
    (o : Option Expr) (schema : Option Schema) (scope : Option Name) (types : ParameterTypes)
    → max_key (collect_where o schema scope types) ≡ scan_where o (max_key types)
max_key-collect_where none schema scope types = refl
max_key-collect_where (some e) schema scope types = max_key-collect_expr e schema scope types

max_key-collect_row :
    (schema : Schema) (row : List Expr) (places : List ℕ) (types : ParameterTypes)
    → length row ≤ length places
    → max_key (collect_row schema row places types) ≡ scan_row row (max_key types)
unfolding collect_row scan_row
max_key-collect_row schema [] places types h = refl
max_key-collect_row schema (e ∷ row) [] types h = absurd (omega (arith, h))
max_key-collect_row schema (e ∷ row) (place ∷ places) types h =
    max_key-collect_row schema row places
      (operand e (type_at schema place) types (collect_expr e none none types)) (omega (arith, h))
    ∙ ap (scan_row row) (
        max_key-operand e (type_at schema place) types (collect_expr e none none types)
          (max_key-collect_expr e none none types))

max_key-collect_rows :
    (schema : Schema) (rows : List (List Expr)) (places : List ℕ) (types : ParameterTypes)
    → All (λ row. length row ≤ length places) rows
    → max_key (collect_rows schema rows places types) ≡ scan_rows rows (max_key types)
unfolding collect_rows scan_rows
max_key-collect_rows schema [] places types h = refl
max_key-collect_rows schema (row ∷ rows) places types (h, hs) =
    max_key-collect_rows schema rows places (collect_row schema row places types) hs
    ∙ ap (scan_rows rows) (max_key-collect_row schema row places types h)

-- The number of columns that an INSERT fills, where its table and columns are there.
abbrev pub target_count : CatalogState → InsertStatement → ℕ
target_count catalog insert = elim (get_table catalog insert.table) [
  | err e ↦ 0
  | ok table ↦ elim (target_indices table.schema insert.columns) [
    | err e ↦ 0
    | ok places ↦ length places
  ]
]

-- No row of an INSERT has more values than it has columns to fill.
abbrev pub RowsFit : CatalogState → Statement → Type 0
RowsFit catalog (Statement.insert insert) =
    All (λ row. length row ≤ target_count catalog insert) insert.values
RowsFit catalog (Statement.explain verbose inner) = RowsFit catalog inner
RowsFit catalog _ = Unit {0}

max_key-collect_statement :
    (statement : Statement) (catalog : CatalogState) (types collected : ParameterTypes)
    → collect_statement statement catalog types ≡ ok collected
    → RowsFit catalog statement
    → max_key collected ≡ scan_statement statement (max_key types)
unfolding collect_statement scan_statement collect_select collect_insert
max_key-collect_statement (Statement.select select) catalog types collected h fit =
    let (table, e, k) =
      split_ok (from_table catalog select.from)
        (λ table. ok (
          collect_where select.where_clause (schema_if table) (scope_of select.from)
            (collect_items select.items (schema_if table) (scope_of select.from) types)))
        h in
    let schema = schema_if table in
    let scope = scope_of select.from in
    let items = collect_items select.items schema scope types in
    let same : collect_where select.where_clause schema scope items ≡ collected = cc k in
    ap max_key (sym same)
    ∙ max_key-collect_where select.where_clause schema scope items
    ∙ ap (scan_where select.where_clause) (max_key-collect_items select.items schema scope types)
max_key-collect_statement (Statement.insert insert) catalog types collected h fit =
    let (table, e, k) =
      split_ok (get_table catalog insert.table)
        (λ table. target_indices table.schema insert.columns >>= λ places.
          ok (collect_rows table.schema insert.values places types))
        h in
    let (places, f, m) =
      split_ok (target_indices table.schema insert.columns)
        (λ places. ok (collect_rows table.schema insert.values places types)) k in
    let same : collect_rows table.schema insert.values places types ≡ collected = cc m in
    let count : target_count catalog insert ≡ length places = ground (arith, e, f) in
    ap max_key (sym same)
    ∙ max_key-collect_rows table.schema insert.values places types
        (subst (λ n. All (λ row. length row ≤ n) insert.values) count fit)
max_key-collect_statement (Statement.explain verbose inner) catalog types collected h fit =
    max_key-collect_statement inner catalog types collected h fit
max_key-collect_statement (Statement.create_table x) catalog types collected h fit =
    let same : types ≡ collected = cc h in ap max_key (sym same)
max_key-collect_statement (Statement.create_index x) catalog types collected h fit =
    let same : types ≡ collected = cc h in ap max_key (sym same)
max_key-collect_statement Statement.begin catalog types collected h fit =
    let same : types ≡ collected = cc h in ap max_key (sym same)
max_key-collect_statement Statement.commit catalog types collected h fit =
    let same : types ≡ collected = cc h in ap max_key (sym same)
max_key-collect_statement Statement.rollback catalog types collected h fit =
    let same : types ≡ collected = cc h in ap max_key (sym same)

length-types_from :
    (n index : ℕ) (types : ParameterTypes) (ts : List (Option DataType))
    → types_from n index types ≡ ok ts
    → length ts ≡ n
unfolding types_from
length-types_from zero index types ts h = let same : [] ≡ ts = cc h in ap length (sym same)
length-types_from (suc n) index types ts h = elim (Option-cases (get index types)) [
  | inl g ↦ absurd (ground (arith, h, g))
  | inr (t, g) ↦
      let (rest, e, k) =
        split_ok (types_from n (suc index) types) (λ ts. ok (t ∷ ts)) (rw (g, types_from) at h) in
      let same : t ∷ rest ≡ ts = cc k in
      ap length (sym same) ∙ ap suc (length-types_from n (suc index) types rest e)
]

-- Where the types of a statement's parameters can be announced, and no row of an INSERT has more
-- values than columns to fill, they are as many as the highest index of a parameter in the
-- statement, and values of that number, and of no other, go on to the substitution.
pub length-infer_parameter_types :
    (statement : Statement) (catalog : CatalogState) (ts : List (Option DataType))
    (values : List Value)
    → infer_parameter_types statement catalog ≡ ok ts
    → RowsFit catalog statement
    → (length ts ≡ max_parameter_index statement)
      × (substitute_parameters statement values ≡ (
          if length ts == length values
          then accepted (substitute_statement statement values)
          else some (err (parameter_count_mismatch (length ts) (length values)))))
unfolding infer_parameter_types finalize max_parameter_index substitute_parameters
length-infer_parameter_types statement catalog ts values h fit =
    let (types, e, k) =
      split_ok (collect_statement statement catalog []) (λ types. finalize types) h in
    let counted : length ts ≡ scan_statement statement 0 =
      length-types_from (max_key types) 1 types ts k
      ∙ max_key-collect_statement statement catalog [] types e fit in
    (
      counted,
      ap
          (λ n.
            if n == length values
            then accepted (substitute_statement statement values)
            else some (err (parameter_count_mismatch n (length values))))
          (sym counted),
    )
