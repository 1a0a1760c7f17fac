-- ===== src/Planner/Binder/SelectSound.antt =====
-- What `bind_select` of binder.rs answers can be evaluated on every row of the table.
use simple_rdbms.Common.{ℕ, suc, ◌+◌, ◌≡◌, refl, sym, ap, ◌∙◌, Option, none, some, List, []}
use simple_rdbms.Common.{
  ◌∷◌, ◌++◌, length, length-append, get_elem?, Result, ok, err, ◌>>=◌, split_ok,
}
use simple_rdbms.Common.{arith, inl, inr, Option-cases, append_assoc, subst}
use simple_rdbms.Catalog.Schema.{Column, Schema, TableInfo}
use simple_rdbms.Catalog.State.{CatalogState}
use simple_rdbms.Sql.Ast.{Name, Expr, SelectItem, wildcard, SelectStatement}
use simple_rdbms.Types.Value.{DataType, Value}
use simple_rdbms.Types.Tuple.RoundTrip.{HaveTypes}
use simple_rdbms.Planner.BoundExpr.{BoundExpr, column_ref}
use simple_rdbms.Planner.PlannerError.{PlannerError, type_mismatch, where_not_boolean}
use simple_rdbms.Planner.Binder.{SessionContext, Typed, bind_expr, not_boolean}
use simple_rdbms.Planner.Binder.Values.{
  Yields, types_of, column_value, evaluate-column, Yields-boolean,
}
use simple_rdbms.Planner.Binder.Sound.{bind_expr-Yields}
use simple_rdbms.Planner.Binder.Statements.{BoundSelect, Columns, no_columns, push, push_columns}
use simple_rdbms.Planner.Binder.Statements.{item_name, bind_items, bind_predicate, from_table}
use simple_rdbms.Planner.Binder.Statements.{schema_of, id_of, scope_of, bind_select}

-- Each expression has a value of the type beside it.
abbrev pub AllYield : List Value → List BoundExpr → List (Option DataType) → Type 0
AllYield tuple [] [] = Unit {0}
AllYield tuple (e ∷ es) (t ∷ ts) = Yields tuple (e, t) × AllYield tuple es ts
AllYield tuple _ _ = ⊥

abbrev pub PredicateYields : List Value → Option BoundExpr → Type 0
PredicateYields tuple none = Unit {0}
PredicateYields tuple (some e) = Yields tuple (e, some DataType.boolean)

abbrev AreSound : List Value → Columns → Type 0
AreSound tuple c = AllYield tuple c.projections c.types × (length c.names ≡ length c.types)

AllYield-push :
    (tuple : List Value) (es : List BoundExpr) (ts : List (Option DataType)) (p : Typed)
    → AllYield tuple es ts
    → Yields tuple p
    → AllYield tuple (es ++ p.0 ∷ []) (ts ++ p.1 ∷ [])
AllYield-push tuple [] [] p h y = (y, tt)
AllYield-push tuple (e ∷ es) (t ∷ ts) p h y = (h.0, AllYield-push tuple es ts p h.1 y)
AllYield-push tuple [] (t ∷ ts) p h y = absurd h
AllYield-push tuple (e ∷ es) [] p h y = absurd h

push-AreSound :
    (tuple : List Value) (c : Columns) (p : Typed) (name : Name)
    → AreSound tuple c
    → Yields tuple p
    → AreSound tuple (push c p.0 name p.1)
push-AreSound tuple c p name h y = (
  AllYield-push tuple c.projections c.types p h.0 y,
  omega (arith, h.1, length-append c.names (name ∷ []), length-append c.types (p.1 ∷ [])),
)

get_elem?-middle :
    (before : Schema) (c : Column) (after : Schema)
    → get_elem? (before ++ c ∷ after) (length before) ≡ some c
get_elem?-middle [] c after = refl
get_elem?-middle (b ∷ before) c after = get_elem?-middle before c after

one_more : (n : ℕ) → n + 1 ≡ suc n
one_more n = omega arith

push_columns-AreSound :
    (tuple : List Value) (c : Columns) (before schema : Schema)
    → HaveTypes tuple (types_of (before ++ schema))
    → AreSound tuple c
    → AreSound tuple (push_columns c (length before) schema)
unfolding push_columns
push_columns-AreSound tuple c before [] row h = h
push_columns-AreSound tuple c before (column ∷ schema) row h =
    let i = length before in
    let p : Typed = (column_ref i column.data_type, some column.data_type) in
    let (v, e, typed) =
      column_value (before ++ column ∷ schema) tuple i column row
        (get_elem?-middle before column schema) in
    let here : Yields tuple p = (v, evaluate-column tuple i column.data_type v e, typed) in
    subst (λ n. AreSound tuple (push_columns (push c p.0 column.name p.1) n schema))
      (length-append before (column ∷ []) ∙ one_more (length before))
      (push_columns-AreSound tuple (push c p.0 column.name p.1) (before ++ column ∷ []) schema
        (subst (λ (l : Schema). HaveTypes tuple (types_of l))
          (sym (append_assoc before (column ∷ []) schema)) row)
        (push-AreSound tuple c p column.name h here))

module _ (s : SessionContext) (schema : Schema) (scope : Option Name) (tuple : List Value)
    (row : HaveTypes tuple (types_of schema)) where
  bind_items-AreSound :
      (c d : Columns) (items : List SelectItem)
      → AreSound tuple c
      → bind_items s schema scope c items ≡ ok d
      → AreSound tuple d
  unfolding bind_items
  bind_items-AreSound c d [] h k = subst (AreSound tuple) (cc k) h
  bind_items-AreSound c d (wildcard ∷ items) h k =
      bind_items-AreSound (push_columns c 0 schema) d items
        (push_columns-AreSound tuple c [] schema row h) k
  bind_items-AreSound c d (SelectItem.expr expr ∷ items) h k =
      let (p, e, m) =
        split_ok (bind_expr s expr schema scope)
          (λ p. bind_items s schema scope (push c p.0 (item_name expr (length c.names)) p.1) items)
          k in
      bind_items-AreSound (push c p.0 (item_name expr (length c.names)) p.1) d items
        (push-AreSound tuple c p (item_name expr (length c.names)) h
          (bind_expr-Yields s expr schema scope p tuple row e))
        m

  bind_predicate-Yields :
      (clause : Option Expr) (predicate : Option BoundExpr)
      → bind_predicate s schema scope clause ≡ ok predicate
      → PredicateYields tuple predicate
  unfolding bind_predicate
  bind_predicate-Yields none predicate h =
      let same : none ≡ predicate = cc h in subst (PredicateYields tuple) same tt
  bind_predicate-Yields (some expr) predicate h =
      let (p, e, k) = split_ok (bind_expr s expr schema scope) (λ p. checked p) h in
      elim (Option-cases (not_boolean p.1)) [
        | inr (t, n) ↦ absurd (ground (arith, k, n))
        | inl n ↦
            let same : some p.0 ≡ predicate = ground (arith, k, n) in
            subst (PredicateYields tuple) same
              (Yields-boolean tuple p n (bind_expr-Yields s expr schema scope p tuple row e))
      ]
    where
      checked : Typed → Result PlannerError (Option BoundExpr)
      checked bound = elim (not_boolean bound.1) [
        | some t ↦ err (type_mismatch (where_not_boolean t))
        | none ↦ ok (some bound.0)
      ]

abbrev bound : Option TableInfo → Columns → Option BoundExpr → BoundSelect
bound table c p = record {
  table_id = id_of table;
  projections = c.projections;
  column_names = c.names;
  column_types = c.types;
  predicate = p;
}

-- The parts of a SELECT that the binder accepts.
bind_select-parts :
    (catalog : CatalogState) (s : SessionContext) (statement : SelectStatement) (b : BoundSelect)
    (table : Option TableInfo)
    → bind_select catalog s statement ≡ ok b
    → from_table catalog statement.from ≡ ok table
    → (c : Columns) × (p : Option BoundExpr) × (bind_items s
          (schema_of table)
          (scope_of statement.from)
          no_columns
          statement.items
        ≡ ok c)
      × (bind_predicate s (schema_of table) (scope_of statement.from) statement.where_clause ≡ ok p)
      × (bound table c p ≡ b)
unfolding bind_select
bind_select-parts catalog s statement b table h from =
    let schema = schema_of table in
    let scope = scope_of statement.from in
    let (c, e, h₂) =
      split_ok (bind_items s schema scope no_columns statement.items)
        (λ c. bind_predicate s schema scope statement.where_clause >>= λ p. ok (bound table c p))
        (rw from at h) in
    let (p, f, h₃) =
      split_ok (bind_predicate s schema scope statement.where_clause) (λ p. ok (bound table c p))
        h₂ in
    (c, p, e, f, cc h₃)

pub bind_select-table_id :
    (catalog : CatalogState) (s : SessionContext) (statement : SelectStatement) (b : BoundSelect)
    (table : Option TableInfo)
    → bind_select catalog s statement ≡ ok b
    → from_table catalog statement.from ≡ ok table
    → b.table_id ≡ id_of table
bind_select-table_id catalog s statement b table h from =
    let (_, _, _, _, same) = bind_select-parts catalog s statement b table h from in
    sym (ap (λ b. b.table_id) same)

-- Where the binder accepts a SELECT, every expression of its list has, on every row whose values
-- are of the types of the table's columns, a value of the type that stands beside it, there are as
-- many names as types, and the predicate has a Boolean value or NULL.
pub bind_select-Yields :
    (catalog : CatalogState) (s : SessionContext) (statement : SelectStatement) (b : BoundSelect)
    (table : Option TableInfo) (tuple : List Value)
    → bind_select catalog s statement ≡ ok b
    → from_table catalog statement.from ≡ ok table
    → HaveTypes tuple (types_of (schema_of table))
    → (b.table_id ≡ id_of table)
      × AllYield tuple b.projections b.column_types
      × (length b.column_names ≡ length b.column_types)
      × PredicateYields tuple b.predicate
bind_select-Yields catalog s statement b table tuple h from row =
    let schema = schema_of table in
    let scope = scope_of statement.from in
    let (c, p, e, f, same) = bind_select-parts catalog s statement b table h from in
    let (all, names) =
      bind_items-AreSound s schema scope tuple row no_columns c statement.items (tt, refl) e in
    subst
      (λ (b : BoundSelect).
        (b.table_id ≡ id_of table)
        × AllYield tuple b.projections b.column_types
        × (length b.column_names ≡ length b.column_types)
        × PredicateYields tuple b.predicate)
      same
      (refl, all, names, bind_predicate-Yields s schema scope tuple row statement.where_clause p f)
