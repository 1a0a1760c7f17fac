-- ===== src/Planner/Binder/Sound.antt =====
-- An expression that binder.rs accepts has a value of its type on every row of the schema.
use simple_rdbms.Common.{◌≡◌, refl, ap, subst, ◌⊎◌, ◌∙◌, Bool, Option, none, some, List}
use simple_rdbms.Common.{get_elem?, Result, ok, ◌>>=◌, split_ok, arith, inl, inr}
use simple_rdbms.Common.{Bool-cases, Option-cases}
use simple_rdbms.Catalog.Schema.{Schema, column_index}
use simple_rdbms.Sql.Ast.{Name, Expr, BinaryOperator, UnaryOperator}
use simple_rdbms.Types.Value.{DataType, Value, boolean}
use simple_rdbms.Types.Value.{data_type}
use simple_rdbms.Types.Value.{is_null as is_null_value}
use simple_rdbms.Types.Tuple.RoundTrip.{HaveTypes}
use simple_rdbms.Planner.BoundExpr.{BoundExpr, literal, column_ref, binary_op, unary_op, is_null}
use simple_rdbms.Planner.BoundExpr.{session_context}
use simple_rdbms.Planner.PlannerError.{PlannerError}
use simple_rdbms.Planner.Binder.{SessionContext, value_of, Typed, not_boolean, comparable}
use simple_rdbms.Planner.Binder.{column_name, coerce_literal_to_column}
use simple_rdbms.Planner.Binder.{coerce_comparison_operands, logic_of, comparison_of, binary_of}
use simple_rdbms.Planner.Binder.{unary_of, bind_column, bind_expr, in_scope, is_numeric}
use simple_rdbms.Executor.Expression.{ExecutorError, evaluate, apply_binary, as_bool}
use simple_rdbms.Executor.Expression.{
  and_of, or_of, three_valued_and, three_valued_or, compare_values,
}
use simple_rdbms.Executor.Expression.{is_not}
use simple_rdbms.Planner.Binder.Values.{
  types_of, Yields, IsOfType-data_type, column_value, as_bool-typed, and_of-boolean, or_of-boolean,
  compare_values-typed, negate-typed, not-typed,
}

as_result : {p q : Typed} → ◌≡◌ {A = Result PlannerError Typed} (ok p) (ok q) → p ≡ q
as_result h = cc

Yields-ok :
    (tuple : List Value) (p q : Typed)
    → ◌≡◌ {A = Result PlannerError Typed} (ok p) (ok q)
    → Yields tuple p
    → Yields tuple q
Yields-ok tuple p q h y = subst (Yields tuple) (as_result h) y

Yields-unary_of :
    (op : UnaryOperator) (p q : Typed) (tuple : List Value)
    → Yields tuple p
    → unary_of op p ≡ ok q
    → Yields tuple q
unfolding unary_of evaluate
Yields-unary_of UnaryOperator.not (b, t) q tuple (v, e, typed) h =
    elim (Option-cases (not_boolean t)) [
      | inr (u, n) ↦ absurd (ground (arith, h, n))
      | inl n ↦
          let (x, a, good) = not-typed t v typed n in
          Yields-ok tuple (unary_op UnaryOperator.not b DataType.boolean, some DataType.boolean) q
            (ground (arith, h, n)) (x, ground (arith, e, a), good)
    ]
Yields-unary_of UnaryOperator.negate (b, none) q tuple y h = absurd (ground (arith, h))
Yields-unary_of UnaryOperator.negate (b, some t) q tuple (v, e, typed) h =
    elim (Bool-cases (is_numeric t)) [
      | inr n ↦ absurd (ground (arith, h, n))
      | inl n ↦
          let (x, a, good) = negate-typed t v typed n in
          Yields-ok tuple (unary_op UnaryOperator.negate b t, some t) q (ground (arith, h, n))
            (x, ground (arith, e, a), good)
    ]

module _ (a b : BoundExpr) (tuple : List Value) (v w : Value) (l k : Option Bool)
    (e : evaluate a tuple ≡ ok v) (f : evaluate b tuple ≡ ok w) (el : as_bool v ≡ ok l)
    (ek : as_bool w ≡ ok k) where
  and_value : evaluate (binary_op a BinaryOperator.and b DataType.boolean) tuple ≡ ok (and_of l k)
  unfolding evaluate apply_binary three_valued_and
  and_value = rw (e, f, el, ek) refl

  or_value : evaluate (binary_op a BinaryOperator.or b DataType.boolean) tuple ≡ ok (or_of l k)
  unfolding evaluate apply_binary three_valued_or
  or_value = rw (e, f, el, ek) refl

Yields-logic_of :
    (op : BinaryOperator) (p q r : Typed) (tuple : List Value)
    → (op ≡ BinaryOperator.and) ⊎ (op ≡ BinaryOperator.or)
    → Yields tuple p
    → Yields tuple q
    → logic_of op p q ≡ ok r
    → Yields tuple r
unfolding logic_of
Yields-logic_of op (a, t) (b, u) r tuple which (v, e, ht) (w, f, hu) h =
    elim (Option-cases (not_boolean t)) [
      | inr (x, n) ↦ absurd (ground (arith, h, n))
      | inl n ↦ elim (Option-cases (not_boolean u)) [
        | inr (x, m) ↦ absurd (ground (arith, h, n, m))
        | inl m ↦
            let (l, el) = as_bool-typed t v ht n in
            let (k, ek) = as_bool-typed u w hu m in
            Yields-ok tuple (binary_op a op b DataType.boolean, some DataType.boolean) r
              (ground (arith, h, n, m))
              (elim which [
                | inl q ↦ (
                  and_of l k,
                  ap (λ o. evaluate (binary_op a o b DataType.boolean) tuple) q
                      ∙ and_value a b tuple v w l k e f el ek,
                  and_of-boolean l k,
                )
                | inr q ↦ (
                  or_of l k,
                  ap (λ o. evaluate (binary_op a o b DataType.boolean) tuple) q
                      ∙ or_value a b tuple v w l k e f el ek,
                  or_of-boolean l k,
                )
              ])
      ]
    ]

Yields-comparison_of :
    (op : BinaryOperator) (p q r : Typed) (tuple : List Value)
    → ((l m : Result ExecutorError Value)
        → apply_binary op l m ≡ (l >>= λ v. m >>= λ w. compare_values op v w))
    → Yields tuple p
    → Yields tuple q
    → comparison_of op p q ≡ ok r
    → Yields tuple r
unfolding comparison_of evaluate
Yields-comparison_of op (a, t) (b, u) r tuple compares (v, e, ht) (w, f, hu) h =
    elim (Bool-cases (comparable t u)) [
      | inr n ↦ absurd (ground (arith, h, n))
      | inl n ↦
          let (x, c, good) = compare_values-typed op t u v w ht hu n in
          Yields-ok tuple (binary_op a op b DataType.boolean, some DataType.boolean) r
            (ground (arith, h, n))
            (x, compares (evaluate a tuple) (evaluate b tuple) ∙ rw (e, f) c, good)
    ]

Yields-binary_of :
    (op : BinaryOperator) (p q r : Typed) (tuple : List Value)
    → Yields tuple p
    → Yields tuple q
    → binary_of op p q ≡ ok r
    → Yields tuple r
unfolding binary_of apply_binary
Yields-binary_of BinaryOperator.and p q r tuple y z h =
    Yields-logic_of BinaryOperator.and p q r tuple (inl refl) y z h
Yields-binary_of BinaryOperator.or p q r tuple y z h =
    Yields-logic_of BinaryOperator.or p q r tuple (inr refl) y z h
Yields-binary_of BinaryOperator.plus p q r tuple y z h = cc
Yields-binary_of BinaryOperator.minus p q r tuple y z h = cc
Yields-binary_of BinaryOperator.multiply p q r tuple y z h = cc
Yields-binary_of BinaryOperator.divide p q r tuple y z h = cc
Yields-binary_of op p q r tuple y z h = Yields-comparison_of op p q r tuple (λ l m. refl) y z h

both_ok :
    (tuple : List Value) (p q : Typed × Typed)
    → ◌≡◌ {A = Result PlannerError (Typed × Typed)} (ok p) (ok q)
    → Yields tuple p.0 × Yields tuple p.1
    → Yields tuple q.0 × Yields tuple q.1
both_ok tuple p q h y = subst (λ (r : Typed × Typed). Yields tuple r.0 × Yields tuple r.1) (cc) y

-- The operands stay what they are, except that a literal takes the type of the column beside it.
Yields-coerced :
    (schema : Schema) (p q : Typed) (r : Typed × Typed) (tuple : List Value)
    → Yields tuple p
    → Yields tuple q
    → coerce_comparison_operands schema p q ≡ ok r
    → Yields tuple r.0 × Yields tuple r.1
unfolding coerce_comparison_operands evaluate
Yields-coerced schema (literal v, t) (column_ref i c, u) r tuple y z h =
    let (w, e, k) =
      split_ok (coerce_literal_to_column v c (column_name schema i))
        (λ w. ok ((literal w, data_type w), (column_ref i c, u))) h in
    both_ok tuple ((literal w, data_type w), (column_ref i c, u)) r k
      ((w, refl, IsOfType-data_type w), z)
Yields-coerced schema (column_ref i c, t) (literal v, u) r tuple y z h =
    let (w, e, k) =
      split_ok (coerce_literal_to_column v c (column_name schema i))
        (λ w. ok ((column_ref i c, t), (literal w, data_type w))) h in
    both_ok tuple ((column_ref i c, t), (literal w, data_type w)) r k
      (y, (w, refl, IsOfType-data_type w))
Yields-coerced schema (a, t) (b, u) r tuple y z h = both_ok tuple ((a, t), (b, u)) r h (y, z)

Yields-bind_column :
    (schema : Schema) (name : Name) (q : Typed) (tuple : List Value)
    → HaveTypes tuple (types_of schema)
    → bind_column schema name ≡ ok q
    → Yields tuple q
unfolding bind_column evaluate
Yields-bind_column schema name q tuple row h = elim (Option-cases (column_index schema name)) [
  | inl n ↦ absurd (ground (arith, h, n))
  | inr (i, n) ↦ elim (Option-cases (get_elem? schema i)) [
    | inl m ↦ absurd (ground (arith, h, n, m))
    | inr (c, m) ↦
        let (v, e, typed) = column_value schema tuple i c row m in
        Yields-ok tuple (column_ref i c.data_type, some c.data_type) q (ground (arith, h, n, m))
          (v, ground (arith, e), typed)
  ]
]

-- An expression that the binder accepts for a schema has, on every row whose values are of the
-- types of the columns, a value of the type that the binder answers, and the value NULL if it
-- answers none: no accepted expression fails when it is evaluated.
pub bind_expr-Yields :
    (s : SessionContext) (expr : Expr) (schema : Schema) (scope : Option Name) (q : Typed)
    (tuple : List Value)
    → HaveTypes tuple (types_of schema)
    → bind_expr s expr schema scope ≡ ok q
    → Yields tuple q
unfolding bind_expr evaluate
bind_expr-Yields s (Expr.literal value) schema scope q tuple row h =
    Yields-ok tuple (literal value, data_type value) q h (value, refl, IsOfType-data_type value)
bind_expr-Yields s (Expr.session_context name) schema scope q tuple row h =
    let v = value_of s name in
    Yields-ok tuple (session_context name v, data_type v) q h (v, refl, IsOfType-data_type v)
bind_expr-Yields s (Expr.column none name) schema scope q tuple row h =
    Yields-bind_column schema name q tuple row h
bind_expr-Yields s (Expr.column (some qualifier) name) schema scope q tuple row h =
    elim (Bool-cases (in_scope scope qualifier)) [
      | inr n ↦ absurd (ground (arith, h, n))
      | inl n ↦ Yields-bind_column schema name q tuple row (ground (arith, h, n))
    ]
bind_expr-Yields s (Expr.unary_op op expr) schema scope q tuple row h =
    let (p, e, k) = split_ok (bind_expr s expr schema scope) (λ b. unary_of op b) h in
    Yields-unary_of op p q tuple (bind_expr-Yields s expr schema scope p tuple row e) k
bind_expr-Yields s (Expr.binary_op left op right) schema scope q tuple row h =
    let (l, el, h₁) =
      split_ok (bind_expr s left schema scope)
        (λ l. bind_expr s right schema scope >>= λ r.
          coerce_comparison_operands schema l r >>= λ p. binary_of op p.0 p.1)
        h in
    let (r, er, h₂) =
      split_ok (bind_expr s right schema scope)
        (λ r. coerce_comparison_operands schema l r >>= λ p. binary_of op p.0 p.1) h₁ in
    let (p, ep, h₃) =
      split_ok (coerce_comparison_operands schema l r) (λ p. binary_of op p.0 p.1) h₂ in
    let (y, z) =
      Yields-coerced schema l r p tuple (bind_expr-Yields s left schema scope l tuple row el)
        (bind_expr-Yields s right schema scope r tuple row er) ep in
    Yields-binary_of op p.0 p.1 q tuple y z h₃
bind_expr-Yields s (Expr.is_null expr negated) schema scope q tuple row h =
    let (p, e, k) =
      split_ok (bind_expr s expr schema scope)
        (λ b. ok (is_null b.0 negated, some DataType.boolean)) h in
    let (v, ev, _) = bind_expr-Yields s expr schema scope p tuple row e in
    Yields-ok tuple (is_null p.0 negated, some DataType.boolean) q k
      (boolean (is_not negated (is_null_value v)), ground (arith, ev), tt)
bind_expr-Yields s (Expr.parameter index) schema scope q tuple row h = cc
