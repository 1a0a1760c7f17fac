-- ===== src/Executor/Expression/Logic.antt =====
-- When an expression of crates/executor/src/expression.rs is true.
use simple_rdbms.Common.{ℕ, ◌≡◌, refl, ap, ◌∙◌, Bool, true, false, Ordering, Option, none, some}
use simple_rdbms.Common.{List, get_elem?, length, Result, ok, err, ◌>>=◌, split_ok, arith}
use simple_rdbms.Types.Value.{DataType, Value, boolean}
use simple_rdbms.Types.Value.{ValueError, compare}
use simple_rdbms.Planner.BoundExpr.{BoundExpr, literal, column_ref, binary_op}
use simple_rdbms.Sql.Ast.{BinaryOperator}
use simple_rdbms.Executor.Expression.{ExecutorError, matches_comparison, three_valued_and}
use simple_rdbms.Executor.Expression.{compare_values, apply_binary, evaluate}
use simple_rdbms.Planner.ScanBounds.{bounds_a_scan}
use simple_rdbms.Executor.Expression.{column_out_of_bounds, as_bool, and_of}

as_bool-true : (v : Value) → as_bool v ≡ ok (some true) → v ≡ boolean true
unfolding as_bool
as_bool-true (boolean true) h = refl
as_bool-true v h = cc

and_of-true : (l r : Option Bool) → and_of l r ≡ boolean true → (l ≡ some true) × (r ≡ some true)
unfolding and_of
and_of-true (some true) (some true) h = (refl, refl)
and_of-true (some false) r h = absurd (ground (arith, h))
and_of-true none (some false) h = absurd (ground (arith, h))
and_of-true (some true) (some false) h = absurd (ground (arith, h))
and_of-true none none h = absurd (ground (arith, h))
and_of-true none (some true) h = absurd (ground (arith, h))
and_of-true (some true) none h = absurd (ground (arith, h))

three_valued_and-true :
    (v w : Value)
    → three_valued_and v w ≡ ok (boolean true)
    → (v ≡ boolean true) × (w ≡ boolean true)
unfolding three_valued_and
three_valued_and-true v w h =
    let (l, e, h') = split_ok (as_bool v) (λ l. as_bool w >>= λ r. ok (and_of l r)) h in
    let (r, f, g) = split_ok (as_bool w) (λ r. ok (and_of l r)) h' in
    let (p, q) = and_of-true l r (cc g) in
    (as_bool-true v (e ∙ ap ok p), as_bool-true w (f ∙ ap ok q))

apply_and_true :
    (l r : Result ExecutorError Value)
    → apply_binary BinaryOperator.and l r ≡ ok (boolean true)
    → (l ≡ ok (boolean true)) × (r ≡ ok (boolean true))
unfolding apply_binary
apply_and_true (ok v) (ok w) h = let (p, q) = three_valued_and-true v w h in (ap ok p, ap ok q)
apply_and_true (err e) r h = cc
apply_and_true (ok v) (err e) h = cc

-- A conjunction is true on a row exactly where both sides are.
pub evaluate-and :
    (left right : BoundExpr) (t : DataType) (tuple : List Value)
    → evaluate (binary_op left BinaryOperator.and right t) tuple ≡ ok (boolean true)
    → (evaluate left tuple ≡ ok (boolean true)) × (evaluate right tuple ≡ ok (boolean true))
unfolding evaluate
evaluate-and left right t tuple h = apply_and_true (evaluate left tuple) (evaluate right tuple) h

compare_values-true :
    (op : BinaryOperator) (v w : Value)
    → compare_values op v w ≡ ok (boolean true)
    → (o : Ordering) × (compare v w ≡ ok (some o)) × (matches_comparison op o ≡ true)
unfolding compare_values
compare_values-true op v w h = from (compare v w) refl
  where
    from :
        (r : Result ValueError (Option Ordering))
        → compare v w ≡ r
        → (o : Ordering) × (compare v w ≡ ok (some o)) × (matches_comparison op o ≡ true)
    from (ok (some o)) e = (o, e, ground (arith, h, e))
    from (ok none) e = absurd (ground (arith, h, e))
    from (err x) e = absurd (ground (arith, h, e))

-- The operators that `column_and_literal` of the planner takes compare their operands.
pub apply_comparison :
    (op : BinaryOperator) (l r : Result ExecutorError Value)
    → bounds_a_scan op ≡ true
    → apply_binary op l r ≡ (l >>= λ v. r >>= λ w. compare_values op v w)
unfolding apply_binary
apply_comparison BinaryOperator.eq l r h = refl
apply_comparison BinaryOperator.lt l r h = refl
apply_comparison BinaryOperator.lt_eq l r h = refl
apply_comparison BinaryOperator.gt l r h = refl
apply_comparison BinaryOperator.gt_eq l r h = refl
apply_comparison op l r h = absurd (ground (arith, h))

-- A comparison of a column with a literal is true on a row only where the column has a value
-- that compares with the literal as the operator says.
pub evaluate-comparison :
    (op : BinaryOperator) (c : ℕ) (w : Value) (t u : DataType) (tuple : List Value)
    → bounds_a_scan op ≡ true
    → evaluate (binary_op (column_ref c t) op (literal w) u) tuple ≡ ok (boolean true)
    → (v : Value) × (get_elem? tuple c ≡ some v)
      × (o : Ordering) × (compare v w ≡ ok (some o))
      × (matches_comparison op o ≡ true)
unfolding evaluate
evaluate-comparison op c w t u tuple b h = from (get_elem? tuple c) refl
  where
    from :
        (found : Option Value)
        → get_elem? tuple c ≡ found
        → (v : Value) × (get_elem? tuple c ≡ some v)
          × (o : Ordering) × (compare v w ≡ ok (some o))
          × (matches_comparison op o ≡ true)
    from none e = absurd (
        ground
          (arith, h, e, apply_comparison op (err (column_out_of_bounds c (length tuple))) (ok w) b))
    from (some v) e =
        let (o, p, q) =
          compare_values-true op v w (ground (arith, h, e, apply_comparison op (ok v) (ok w) b)) in
        (v, e, o, p, q)
