-- ===== src/Planner/Binder/InsertSound.antt =====
-- The rows that `bind_insert` of binder.rs answers have values of the types of the columns.
use simple_rdbms.Common.{ℕ, zero, suc, ◌≡◌, refl, sym, ap, ◌∙◌, true, none, some}
use simple_rdbms.Common.{List, [], ◌∷◌, length, get_elem?, set, Result, ok, ◌>>=◌, split_ok, All}
use simple_rdbms.Common.{arith, inl, inr, Option-cases, Bool-cases, subst, ◌==◌}
use simple_rdbms.Catalog.Schema.{Column, Schema, TableInfo}
use simple_rdbms.Catalog.State.{CatalogState}
use simple_rdbms.Sql.Ast.{Expr, InsertStatement}
use simple_rdbms.Types.Value.{DataType, Value, null, varchar}
use simple_rdbms.Types.Value.{data_type, HasType}
use simple_rdbms.Executor.Expression.{evaluate}
use simple_rdbms.Planner.BoundExpr.{BoundExpr, literal}
use simple_rdbms.Planner.PlannerError.{PlannerError}
use simple_rdbms.Planner.Binder.{SessionContext, Typed, bind_expr, data_types_match}
use simple_rdbms.Planner.Binder.{coerce_literal_to_column}
use simple_rdbms.Planner.Binder.Values.{Yields, IsOfType-data_type}
use simple_rdbms.Planner.Binder.Sound.{bind_expr-Yields}
use simple_rdbms.Planner.Binder.Statements.{BoundInsert, get_table, target_indices, coerce_bound}
use simple_rdbms.Planner.Binder.Statements.{
  check_column, bind_values, null_row, bind_rows, bind_insert,
}

-- There is an expression for each column, and it has a value of the column's type.
abbrev pub Fills : List BoundExpr → Schema → Type 0
Fills [] [] = Unit {0}
Fills (e ∷ es) (c ∷ cs) = Yields [] (e, some c.data_type) × Fills es cs
Fills _ _ = ⊥

null_row-Fills : (schema : Schema) → Fills (null_row schema) schema
unfolding evaluate
null_row-Fills [] = tt
null_row-Fills (c ∷ cs) = ((null, refl, tt), null_row-Fills cs)

set-Fills :
    (row : List BoundExpr) (schema : Schema) (place : ℕ) (column : Column) (e : BoundExpr)
    → Fills row schema
    → get_elem? schema place ≡ some column
    → Yields [] (e, some column.data_type)
    → Fills (set row place e) schema
set-Fills [] [] place column e h g y = tt
set-Fills (r ∷ row) (c ∷ cs) zero column e h g y =
    let same : column ≡ c = cc g in
    (subst (λ (c : Column). Yields [] (e, some c.data_type)) same y, h.1)
set-Fills (r ∷ row) (c ∷ cs) (suc place) column e h g y =
    (h.0, set-Fills row cs place column e h.1 g y)
set-Fills [] (c ∷ cs) place column e h g y = absurd h
set-Fills (r ∷ row) [] place column e h g y = absurd h

HasType-matching :
    (t u : DataType) (v : Value) → data_types_match t u ≡ true → HasType v t → HasType v u
HasType-matching (DataType.varchar i) (DataType.varchar j) null m h = tt
HasType-matching (DataType.varchar i) (DataType.varchar j) (varchar s) m h = tt
HasType-matching (DataType.varchar i) (DataType.varchar j) v m h = absurd h
HasType-matching DataType.boolean DataType.boolean v m h = h
HasType-matching DataType.integer DataType.integer v m h = h
HasType-matching DataType.big_int DataType.big_int v m h = h
HasType-matching DataType.double DataType.double v m h = h
HasType-matching t u v m h = absurd (ground (arith, m))

Yields-coerce_bound :
    (column : Column) (p q : Typed) → Yields [] p → coerce_bound column p ≡ ok q → Yields [] q
unfolding coerce_bound evaluate
Yields-coerce_bound column (literal v, t) q y h =
    let (w, e, k) =
      split_ok (coerce_literal_to_column v column.data_type column.name)
        (λ w. ok (literal w, data_type w)) h in
    let same : ◌≡◌ {A = Typed} (literal w, data_type w) q = cc k in
    subst (Yields []) same (w, refl, IsOfType-data_type w)
Yields-coerce_bound column (e, t) q y h =
    let same : ◌≡◌ {A = Typed} (e, t) q = cc h in subst (Yields []) same y

Yields-check_column :
    (column : Column) (p : Typed) (e : BoundExpr)
    → Yields [] p
    → check_column column p ≡ ok e
    → Yields [] (e, some column.data_type)
unfolding check_column
Yields-check_column column (b, none) e (v, q, typed) h =
    let same : b ≡ e = cc h in
    (
      v,
      ap (λ b. evaluate b []) (sym same) ∙ q,
      subst (λ w. HasType w column.data_type) (sym typed) tt,
    )
Yields-check_column column (b, some t) e (v, q, typed) h =
    elim (Bool-cases (data_types_match t column.data_type)) [
      | inr n ↦ absurd (ground (arith, h, n))
      | inl n ↦
          let same : b ≡ e = ground (arith, h, n) in
          (v, ap (λ b. evaluate b []) (sym same) ∙ q, HasType-matching t column.data_type v n typed)
    ]

bind_values-Fills :
    (s : SessionContext) (schema : Schema) (exprs : List Expr) (places : List ℕ)
    (row bound : List BoundExpr)
    → Fills row schema
    → bind_values s schema exprs places row ≡ ok bound
    → Fills bound schema
unfolding bind_values
bind_values-Fills s schema [] places row bound h k = subst (λ r. Fills r schema) (cc k) h
bind_values-Fills s schema (expr ∷ exprs) [] row bound h k = subst (λ r. Fills r schema) (cc k) h
bind_values-Fills s schema (expr ∷ exprs) (place ∷ places) row bound h k =
    elim (Option-cases (get_elem? schema place)) [
      | inl n ↦ let same : row ≡ bound = ground (arith, k, n) in subst (λ r. Fills r schema) same h
      | inr (column, n) ↦
          let (p, e₁, k₁) =
            split_ok (bind_expr s expr [] none) (λ p. coerced column p)
              (rw (n, bind_values) at k) in
          let (q, e₂, k₂) = split_ok (coerce_bound column p) (λ q. checked column q) k₁ in
          let (e, e₃, k₃) =
            split_ok (check_column column q)
              (λ e. bind_values s schema exprs places (set row place e)) k₂ in
          let y = bind_expr-Yields s expr [] none p [] tt e₁ in
          let z = Yields-check_column column q e (Yields-coerce_bound column p q y e₂) e₃ in
          bind_values-Fills s schema exprs places (set row place e) bound
            (set-Fills row schema place column e h n z) k₃
    ]
  where
    checked : Column → Typed → Result PlannerError (List BoundExpr)
    checked column q =
        check_column column q >>= λ e. bind_values s schema exprs places (set row place e)

    coerced : Column → Typed → Result PlannerError (List BoundExpr)
    coerced column p = coerce_bound column p >>= λ q. checked column q

bind_rows-Fills :
    (s : SessionContext) (schema : Schema) (places : List ℕ) (rows : List (List Expr))
    (bound : List (List BoundExpr))
    → bind_rows s schema places rows ≡ ok bound
    → All (λ r. Fills r schema) bound
unfolding bind_rows
bind_rows-Fills s schema places [] bound h =
    let same : [] ≡ bound = cc h in subst (All (λ r. Fills r schema)) same tt
bind_rows-Fills s schema places (row ∷ rows) bound h =
    elim (Bool-cases (length row == length places)) [
      | inr n ↦ absurd (ground (arith, h, n))
      | inl n ↦
          let (r, e, k) =
            split_ok (bind_values s schema row places (null_row schema)) (λ r. others r)
              (rw n at h) in
          let (rs, f, l) = split_ok (bind_rows s schema places rows) (λ rs. ok (r ∷ rs)) k in
          let same : r ∷ rs ≡ bound = cc l in
          subst (All (λ r. Fills r schema)) same (
            bind_values-Fills s schema row places (null_row schema) r (null_row-Fills schema) e,
            bind_rows-Fills s schema places rows rs f,
          )
    ]
  where
    others : List BoundExpr → Result PlannerError (List (List BoundExpr))
    others r = bind_rows s schema places rows >>= λ rs. ok (r ∷ rs)

-- Where the binder accepts an INSERT, each of its rows has an expression for each column of the
-- table, also for those that the statement does not name, and the expression has a value of the
-- column's type or NULL.
pub bind_insert-Fills :
    (catalog : CatalogState) (s : SessionContext) (statement : InsertStatement) (b : BoundInsert)
    → bind_insert catalog s statement ≡ ok b
    → (table : TableInfo) × (get_table catalog statement.table ≡ ok table)
      × (b.table_id ≡ table.table_id)
      × All (λ row. Fills row table.schema) b.rows
unfolding bind_insert
bind_insert-Fills catalog s statement b h =
    let (table, e, k) = split_ok (get_table catalog statement.table) (λ t. placed t) h in
    let (places, f, l) =
      split_ok (target_indices table.schema statement.columns) (λ p. filled table p) k in
    let (rows, g, m) =
      split_ok (bind_rows s table.schema places statement.values) (λ r. ok (done table r)) l in
    let same : done table rows ≡ b = cc m in
    (
      table,
      e,
      sym (ap (λ b. b.table_id) same),
      subst (λ (b : BoundInsert). All (λ row. Fills row table.schema) b.rows) same
          (bind_rows-Fills s table.schema places statement.values rows g),
    )
  where
    done : TableInfo → List (List BoundExpr) → BoundInsert
    done table rows = record { table_id = table.table_id; rows = rows }

    filled : TableInfo → List ℕ → Result PlannerError BoundInsert
    filled table places =
        bind_rows s table.schema places statement.values >>= λ r. ok (done table r)

    placed : TableInfo → Result PlannerError BoundInsert
    placed table = target_indices table.schema statement.columns >>= λ p. filled table p
