-- ===== src/Executor/Expression.antt =====
-- crates/executor/src/expression.rs: the value of an expression on a row. The texts of the errors
-- are constructors.
pub mod Logic
use simple_rdbms.Common.{
  ℕ, ◌+◌, ◌-◌, ◌%◌, ◌^◌, Bool, true, false, Ordering, Option, none, some, List,
}
use simple_rdbms.Common.{length, get_elem?, Result, ok, err, ◌>>=◌, if◌then◌else◌}
use simple_rdbms.Common.Int.{ℤ, to_word, of_word}
use simple_rdbms.Types.Value.{DataType, Value, null, boolean, integer, big_int, double, varchar}
use simple_rdbms.Types.Value.{ValueError, is_null, compare}
use simple_rdbms.Planner.BoundExpr.{BoundExpr, literal, column_ref}
use simple_rdbms.Sql.Ast.{BinaryOperator, UnaryOperator}
use simple_rdbms.Planner.BoundExpr.{binary_op, unary_op, session_context}

pub data ExecutorError : Type 0 where
  column_out_of_bounds : (index columns : ℕ) → ExecutorError
  not_requires_boolean : Value → ExecutorError
  negate_requires_numeric : Value → ExecutorError
  compare_failed : ValueError → ExecutorError
  logic_requires_boolean : Value → ExecutorError
  arithmetic_not_supported : ExecutorError

abbrev pub is_ordering : Ordering → Ordering → Bool
is_ordering Ordering.lt Ordering.lt = true
is_ordering Ordering.eq Ordering.eq = true
is_ordering Ordering.gt Ordering.gt = true
is_ordering _ _ = false

abbrev pub flip_bool : Bool → Bool
flip_bool true = false
flip_bool false = true

-- It is called for the comparisons only; the last clause stands for `unreachable!`.
unfoldable pub matches_comparison : BinaryOperator → Ordering → Bool
matches_comparison BinaryOperator.eq o = is_ordering o Ordering.eq
matches_comparison BinaryOperator.not_eq o = flip_bool (is_ordering o Ordering.eq)
matches_comparison BinaryOperator.lt o = is_ordering o Ordering.lt
matches_comparison BinaryOperator.lt_eq o = flip_bool (is_ordering o Ordering.gt)
matches_comparison BinaryOperator.gt o = is_ordering o Ordering.gt
matches_comparison BinaryOperator.gt_eq o = flip_bool (is_ordering o Ordering.lt)
matches_comparison _ o = false

unfoldable pub as_bool : Value → Result ExecutorError (Option Bool)
as_bool null = ok none
as_bool (boolean b) = ok (some b)
as_bool other = err (logic_requires_boolean other)

-- The match of `three_valued_and` and of `three_valued_or`.
unfoldable pub and_of : Option Bool → Option Bool → Value
and_of (some false) r = boolean false
and_of l (some false) = boolean false
and_of (some true) (some true) = boolean true
and_of l r = null

unfoldable pub or_of : Option Bool → Option Bool → Value
or_of (some true) r = boolean true
or_of l (some true) = boolean true
or_of (some false) (some false) = boolean false
or_of l r = null

unfoldable pub three_valued_and : Value → Value → Result ExecutorError Value
unfolding as_bool and_of
three_valued_and left right = do l ← as_bool left; r ← as_bool right; ok (and_of l r)

unfoldable pub three_valued_or : Value → Value → Result ExecutorError Value
unfolding as_bool or_of
three_valued_or left right = do l ← as_bool left; r ← as_bool right; ok (or_of l r)

-- The arms of the comparisons.
unfoldable pub compare_values : BinaryOperator → Value → Value → Result ExecutorError Value
unfolding compare matches_comparison
compare_values op left right = elim (compare left right) [
  | err e ↦ err (compare_failed e)
  | ok none ↦ ok null
  | ok (some ordering) ↦ ok (boolean (matches_comparison op ordering))
]

-- `-v` of a word, which wraps around at the least one.
unfoldable pub negate_word : ℕ → ℤ → ℤ
unfolding to_word of_word
negate_word half v = of_word half ((half + half - to_word half v) % (half + half))

-- The match of `evaluate_unary` on the value of the operand. The sign of a double is its top bit.
unfoldable pub apply_unary : UnaryOperator → Value → Result ExecutorError Value
unfolding negate_word
apply_unary op null = ok null
apply_unary UnaryOperator.not (boolean b) = ok (boolean (flip_bool b))
apply_unary UnaryOperator.not other = err (not_requires_boolean other)
apply_unary UnaryOperator.negate (integer v) = ok (integer (negate_word (2 ^ 31) v))
apply_unary UnaryOperator.negate (big_int v) = ok (big_int (negate_word (2 ^ 63) v))
apply_unary UnaryOperator.negate (double v) = ok (double ((v + 2 ^ 63) % 2 ^ 64))
apply_unary UnaryOperator.negate other = err (negate_requires_numeric other)

-- The match of `evaluate_binary` on the operator, with the two operands' results.
unfoldable pub apply_binary :
    BinaryOperator
    → Result ExecutorError Value
    → Result ExecutorError Value
    → Result ExecutorError Value
unfolding three_valued_and three_valued_or compare_values
apply_binary BinaryOperator.and left right = left >>= λ l. right >>= λ r. three_valued_and l r
apply_binary BinaryOperator.or left right = left >>= λ l. right >>= λ r. three_valued_or l r
apply_binary BinaryOperator.plus left right = err arithmetic_not_supported
apply_binary BinaryOperator.minus left right = err arithmetic_not_supported
apply_binary BinaryOperator.multiply left right = err arithmetic_not_supported
apply_binary BinaryOperator.divide left right = err arithmetic_not_supported
apply_binary op left right = left >>= λ l. right >>= λ r. compare_values op l r

abbrev pub is_not : Bool → Bool → Bool
is_not true b = flip_bool b
is_not false b = b

unfoldable pub evaluate : BoundExpr → List Value → Result ExecutorError Value
unfolding apply_unary apply_binary is_null
evaluate (literal value) tuple = ok value
evaluate (session_context name value) tuple = ok value
evaluate (column_ref index data_type) tuple = elim (get_elem? tuple index) [
  | some value ↦ ok value
  | none ↦ err (column_out_of_bounds index (length tuple))
]
evaluate (unary_op op expr data_type) tuple = evaluate expr tuple >>= λ v. apply_unary op v
evaluate (binary_op left op right data_type) tuple =
    apply_binary op (evaluate left tuple) (evaluate right tuple)
evaluate (BoundExpr.is_null expr negated) tuple =
    evaluate expr tuple >>= λ v. ok (boolean (is_not negated (is_null v)))
