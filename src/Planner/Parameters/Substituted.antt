-- ===== src/Planner/Parameters/Substituted.antt =====
-- What parameters.rs puts in the places of parameters, and that none is left.
use simple_rdbms.Common.{ℕ, ◌≡◌, ◌≢◌, refl, Option, none, some, List, Result, ok, err, ◌>>=◌}
use simple_rdbms.Common.{
  ◌⊎◌, inl, inr, arith, zero, suc, ◌≤◌, ◌<◌, sym, ap, subst, [], ◌∷◌, ◌++◌, length, get_elem?,
}
use simple_rdbms.Catalog.Schema.{Schema}
use simple_rdbms.Sql.Ast.{
  Name, Expr, literal, session_context, column, binary_op, unary_op, is_null,
}
use simple_rdbms.Sql.Ast.{parameter, BinaryOperator, UnaryOperator}
use simple_rdbms.Types.Value.{DataType, Value}
use simple_rdbms.Planner.PlannerError.{undefined_parameter}
use simple_rdbms.Planner.Binder.{SessionContext, Typed, bind_expr, bind_column, unary_of, binary_of}
use simple_rdbms.Planner.Binder.{column_name, logic_of, comparison_of, coerce_comparison_operands}
use simple_rdbms.Planner.Binder.{coerce_literal_to_column}
use simple_rdbms.Planner.BoundExpr.{BoundExpr}
use simple_rdbms.Planner.Parameters.{scan_expr}
use simple_rdbms.Planner.Parameters.Values.{substitute_expr}

split_err {ℓ κ λ₁} :
    {E : Type λ₁} {A : Type ℓ} {B : Type κ} (r : Result E A) (k : A → Result E B) {x : E}
    → (r >>= k) ≡ err x
    → (r ≡ err x) ⊎ ((a : A) × (r ≡ ok a) × (k a ≡ err x))
split_err (err e) k q = inl (cc)
split_err (ok a) k q = inr (a, refl, q)

bind_column-defined :
    (schema : Schema) (name : Name) (i : ℕ) → bind_column schema name ≢ err (undefined_parameter i)
unfolding bind_column
bind_column-defined schema name i h = ground (arith, h)

unary_of-defined :
    (op : UnaryOperator) (p : Typed) (i : ℕ) → unary_of op p ≢ err (undefined_parameter i)
unfolding unary_of
unary_of-defined UnaryOperator.not (e, t) i h = ground (arith, h)
unary_of-defined UnaryOperator.negate (e, none) i h = ground (arith, h)
unary_of-defined UnaryOperator.negate (e, some t) i h = ground (arith, h)

logic_of-defined :
    (op : BinaryOperator) (p q : Typed) (i : ℕ) → logic_of op p q ≢ err (undefined_parameter i)
unfolding logic_of
logic_of-defined op (a, t) (b, u) i h = ground (arith, h)

comparison_of-defined :
    (op : BinaryOperator) (p q : Typed) (i : ℕ) → comparison_of op p q ≢ err (undefined_parameter i)
unfolding comparison_of
comparison_of-defined op (a, t) (b, u) i h = ground (arith, h)

binary_of-defined :
    (op : BinaryOperator) (p q : Typed) (i : ℕ) → binary_of op p q ≢ err (undefined_parameter i)
unfolding binary_of
binary_of-defined BinaryOperator.and p q i h = logic_of-defined BinaryOperator.and p q i h
binary_of-defined BinaryOperator.or p q i h = logic_of-defined BinaryOperator.or p q i h
binary_of-defined BinaryOperator.plus p q i h = cc
binary_of-defined BinaryOperator.minus p q i h = cc
binary_of-defined BinaryOperator.multiply p q i h = cc
binary_of-defined BinaryOperator.divide p q i h = cc
binary_of-defined op p q i h = comparison_of-defined op p q i h

coerce_literal-defined :
    (v : Value) (t : DataType) (name : Name) (i : ℕ)
    → coerce_literal_to_column v t name ≢ err (undefined_parameter i)
unfolding coerce_literal_to_column
coerce_literal-defined v t name i h = ground (arith, h)

coerce_operands-defined :
    (schema : Schema) (p q : Typed) (i : ℕ)
    → coerce_comparison_operands schema p q ≢ err (undefined_parameter i)
unfolding coerce_comparison_operands
coerce_operands-defined schema (BoundExpr.literal v, t) (BoundExpr.column_ref index c, u) i h =
    elim (split_err (coerce_literal_to_column v c (column_name schema index)) _ h) [
      | inl q ↦ coerce_literal-defined v c (column_name schema index) i q
      | inr (w, _, q) ↦ cc
    ]
coerce_operands-defined schema (BoundExpr.column_ref index c, t) (BoundExpr.literal v, u) i h =
    elim (split_err (coerce_literal_to_column v c (column_name schema index)) _ h) [
      | inl q ↦ coerce_literal-defined v c (column_name schema index) i q
      | inr (w, _, q) ↦ cc
    ]
coerce_operands-defined schema p q i h = cc

-- No `$0`: parameters count from 1.
abbrev pub IsNumbered : Expr → Type 0
IsNumbered (parameter index) = 0 < index
IsNumbered (binary_op left op right) = IsNumbered left × IsNumbered right
IsNumbered (unary_op op expr) = IsNumbered expr
IsNumbered (is_null expr negated) = IsNumbered expr
IsNumbered _ = Unit {0}

-- The second expression is the first with a literal of the value number `index`, counted from 1, in
-- the place of each parameter `$index`.
abbrev pub IsFilled : List Value → Expr → Expr → Type 0
IsFilled values (parameter index) filled =
    (before : List Value) × (v : Value) × (after : List Value) × (values ≡ before ++ v ∷ after)
    × (suc (length before) ≡ index)
    × (filled ≡ literal v)
IsFilled values (binary_op left op right) filled =
    (l : Expr) × (r : Expr) × IsFilled values left l
    × IsFilled values right r
    × (filled ≡ binary_op l op r)
IsFilled values (unary_op op expr) filled =
    (e : Expr) × IsFilled values expr e × (filled ≡ unary_op op e)
IsFilled values (is_null expr negated) filled =
    (e : Expr) × IsFilled values expr e × (filled ≡ is_null e negated)
IsFilled values expr filled = filled ≡ expr

scan_expr-grows : (expr : Expr) (max : ℕ) → max ≤ scan_expr expr max
unfolding scan_expr
scan_expr-grows (parameter index) max = ground arith
scan_expr-grows (literal value) max = omega arith
scan_expr-grows (session_context name) max = omega arith
scan_expr-grows (column table name) max = omega arith
scan_expr-grows (unary_op op expr) max = scan_expr-grows expr max
scan_expr-grows (is_null expr negated) max = scan_expr-grows expr max
scan_expr-grows (binary_op left op right) max =
    omega (arith, scan_expr-grows left max, scan_expr-grows right (scan_expr left max))

-- The value at a place within the list.
found_at :
    (values : List Value) (i : ℕ)
    → i < length values
    → (before : List Value) × (v : Value) × (after : List Value) × (values ≡ before ++ v ∷ after)
      × (length before ≡ i)
      × (get_elem? values i ≡ some v)
found_at [] i h = absurd (omega (arith, h))
found_at (v ∷ values) zero h = ([], v, values, refl, refl, refl)
found_at (v ∷ values) (suc i) h =
    let (before, w, after, split, count, there) = found_at values i (omega (arith, h)) in
    (v ∷ before, w, after, ap (λ vs. v ∷ vs) split, ap suc count, there)

substitute_expr-IsFilled :
    (expr : Expr) (values : List Value) (max : ℕ)
    → IsNumbered expr
    → scan_expr expr max ≤ length values
    → (filled : Expr) × (substitute_expr expr values ≡ some filled) × IsFilled values expr filled
unfolding substitute_expr scan_expr
substitute_expr-IsFilled (parameter zero) values max h le = absurd (omega (arith, h))
substitute_expr-IsFilled (parameter (suc i)) values max h le =
    let low : i < length values = ground (arith, le) in
    let (before, v, after, split, count, there) = found_at values i low in
    (literal v, rw there refl, (before, v, after, split, ap suc count, refl))
substitute_expr-IsFilled (literal value) values max h le = (literal value, refl, refl)
substitute_expr-IsFilled (session_context name) values max h le = (session_context name, refl, refl)
substitute_expr-IsFilled (column table name) values max h le = (column table name, refl, refl)
substitute_expr-IsFilled (unary_op op expr) values max h le =
    let (e, done, filled) = substitute_expr-IsFilled expr values max h le in
    (unary_op op e, rw done refl, (e, filled, refl))
substitute_expr-IsFilled (is_null expr negated) values max h le =
    let (e, done, filled) = substitute_expr-IsFilled expr values max h le in
    (is_null e negated, rw done refl, (e, filled, refl))
substitute_expr-IsFilled (binary_op left op right) values max (hl, hr) le =
    let up = scan_expr-grows right (scan_expr left max) in
    let (l, done_l, filled_l) =
      substitute_expr-IsFilled left values max hl (omega (arith, up, le)) in
    let (r, done_r, filled_r) = substitute_expr-IsFilled right values (scan_expr left max) hr le in
    (binary_op l op r, rw (done_l, done_r) refl, (l, r, filled_l, filled_r, refl))

-- An expression without parameters is not rejected for one.
module _ (s : SessionContext) (values : List Value) (schema : Schema) (scope : Option Name)
    (i : ℕ) where
  abbrev IsDefined : Expr → Type 0
  IsDefined filled = bind_expr s filled schema scope ≢ err (undefined_parameter i)

  bind_expr-filled : (expr filled : Expr) → IsFilled values expr filled → IsDefined filled
  unfolding bind_expr
  bind_expr-filled (parameter index) filled (before, v, after, _, _, e) =
      subst IsDefined (sym e) (λ h. cc h)
  bind_expr-filled (literal value) filled e = subst IsDefined (sym e) (λ h. cc h)
  bind_expr-filled (session_context name) filled e = subst IsDefined (sym e) (λ h. cc h)
  bind_expr-filled (column none name) filled e =
      subst IsDefined (sym e) (bind_column-defined schema name i)
  bind_expr-filled (column (some q) name) filled e =
      subst IsDefined (sym e) (λ h. ground (arith, h, bind_column-defined schema name i))
  bind_expr-filled (unary_op op expr) filled (x, inner, e) = subst IsDefined (sym e) (λ h.
      elim (split_err (bind_expr s x schema scope) _ h) [
        | inl q ↦ bind_expr-filled expr x inner q
        | inr (p, _, q) ↦ unary_of-defined op p i q
      ])
  bind_expr-filled (is_null expr negated) filled (x, inner, e) = subst IsDefined (sym e) (λ h.
      elim (split_err (bind_expr s x schema scope) _ h) [
        | inl q ↦ bind_expr-filled expr x inner q
        | inr (p, _, q) ↦ cc
      ])
  bind_expr-filled (binary_op left op right) filled (x, y, inner_x, inner_y, e) =
      subst IsDefined (sym e) (λ h. elim (split_err (bind_expr s x schema scope) _ h) [
        | inl q ↦ bind_expr-filled left x inner_x q
        | inr (l, _, q) ↦ elim (split_err (bind_expr s y schema scope) _ q) [
          | inl q' ↦ bind_expr-filled right y inner_y q'
          | inr (r, _, q') ↦ elim (split_err (coerce_comparison_operands schema l r) _ q') [
            | inl q'' ↦ coerce_operands-defined schema l r i q''
            | inr (p, _, q'') ↦ binary_of-defined op p.0 p.1 i q''
          ]
        ]
      ])

-- Where an expression has no `$0`, and the values are at least as many as the highest index of a
-- parameter in it, the substitution does not panic, puts the value number `index`, counted from 1,
-- in the place of each `$index` and changes nothing else, and the binder never rejects what it
-- answers for a parameter that is left in it.
pub bind_expr-substitute_expr :
    (s : SessionContext) (expr : Expr) (values : List Value) (schema : Schema) (scope : Option Name)
    (i : ℕ)
    → IsNumbered expr
    → scan_expr expr 0 ≤ length values
    → (filled : Expr) × (substitute_expr expr values ≡ some filled)
      × IsFilled values expr filled
      × (bind_expr s filled schema scope ≢ err (undefined_parameter i))
bind_expr-substitute_expr s expr values schema scope i h le =
    let (filled, done, inner) = substitute_expr-IsFilled expr values 0 h le in
    (filled, done, inner, bind_expr-filled s values schema scope i expr filled inner)
