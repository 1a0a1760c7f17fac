-- ===== src/Planner/ScanBounds.antt =====
-- crates/planner/src/optimizer.rs: the range of keys of an index that a predicate allows.
pub mod Order
pub mod Candidates
pub mod Covers
use simple_rdbms.Common.{ℕ, Bool, true, false, not, Option, none, some, List, [], ◌∷◌, ◌++◌, ◌==◌}
use simple_rdbms.Common.{Ordering, Result, ok, err, if◌then◌else◌}
use simple_rdbms.Common.Lex.{lex}
use simple_rdbms.Common.Options.{◌>>=◌}
use simple_rdbms.Ids.{TableId, IndexId}
use simple_rdbms.Types.Value.{Value}
use simple_rdbms.Types.Memcomparable.{encode_memcomparable}
use simple_rdbms.Planner.BoundExpr.{BoundExpr, literal, column_ref, binary_op}
use simple_rdbms.Sql.Ast.{BinaryOperator}
use simple_rdbms.Planner.BoundExpr.{unary_op, is_null, session_context}

-- What `flatten_and_conjuncts` pushes.
unfoldable pub flatten_and_conjuncts : BoundExpr → List BoundExpr → List BoundExpr
flatten_and_conjuncts (binary_op left BinaryOperator.and right data_type) out =
    flatten_and_conjuncts right (flatten_and_conjuncts left out)
flatten_and_conjuncts expr out = out ++ expr ∷ []

abbrev pub bounds_a_scan : BinaryOperator → Bool
bounds_a_scan BinaryOperator.eq = true
bounds_a_scan BinaryOperator.lt = true
bounds_a_scan BinaryOperator.lt_eq = true
bounds_a_scan BinaryOperator.gt = true
bounds_a_scan BinaryOperator.gt_eq = true
bounds_a_scan _ = false

unfoldable pub column_and_literal : BoundExpr → Option (ℕ × BinaryOperator × Value)
column_and_literal (binary_op (column_ref index t) op (literal value) u) =
    if bounds_a_scan op then some (index, op, value) else none
column_and_literal _ = none

unfoldable pub successor : List ℕ → List ℕ
successor bytes = bytes ++ 0 ∷ []

abbrev pub Key : Type 0
Key = List ℕ

-- `a >= b` and `a <= b` of byte strings.
abbrev pub is_ge : Ordering → Bool
is_ge Ordering.lt = false
is_ge _ = true

abbrev pub is_le : Ordering → Bool
is_le Ordering.gt = false
is_le _ = true

-- The candidates of the match on the operator; the last clause stands for `unreachable!`.
unfoldable pub candidates : BinaryOperator → Key → Option Key × Option Key
unfolding successor
candidates BinaryOperator.eq encoded = (some encoded, some (successor encoded))
candidates BinaryOperator.lt encoded = (none, some encoded)
candidates BinaryOperator.lt_eq encoded = (none, some (successor encoded))
candidates BinaryOperator.gt encoded = (some (successor encoded), none)
candidates BinaryOperator.gt_eq encoded = (some encoded, none)
candidates _ encoded = (none, none)

-- `start.filter(|current| *current >= candidate).unwrap_or(candidate)`
unfoldable pub raise_start : Option Key → Option Key → Option Key
unfolding lex
raise_start start none = start
raise_start none (some candidate) = some candidate
raise_start (some current) (some candidate) =
    if is_ge (lex current candidate) then some current else some candidate

-- `end.filter(|current| *current <= candidate).unwrap_or(candidate)`
unfoldable pub lower_end : Option Key → Option Key → Option Key
unfolding lex
lower_end end none = end
lower_end none (some candidate) = some candidate
lower_end (some current) (some candidate) =
    if is_le (lex current candidate) then some current else some candidate

-- The body of the loop over the conjuncts, behind `column_and_literal`.
unfoldable pub tighten :
    ℕ → Option (ℕ × BinaryOperator × Value) → Option Key × Option Key → Option Key × Option Key
unfolding encode_memcomparable candidates raise_start lower_end
tighten target none (start, end) = (start, end)
tighten target (some (column_index, op, value)) (start, end) =
    if not (column_index == target) then (start, end) else elim (encode_memcomparable value []) [
      | err e ↦ (start, end)
      | ok encoded ↦
          (raise_start start (candidates op encoded).0, lower_end end (candidates op encoded).1)
    ]

unfoldable pub tighten_all : ℕ → List BoundExpr → Option Key × Option Key → Option Key × Option Key
unfolding tighten column_and_literal
tighten_all target [] bounds = bounds
tighten_all target (expr ∷ exprs) bounds =
    tighten_all target exprs (tighten target (column_and_literal expr) bounds)

-- The catalog's `index_for_column`, by the id of the index.
module _ (index_for_column : TableId → ℕ → Option IndexId) where
  unfoldable pub target_of : TableId → BoundExpr → Option (ℕ × IndexId)
  unfolding column_and_literal
  target_of table_id expr = do
    (column_index, op, value) ← column_and_literal expr
    index_id ← index_for_column table_id column_index
    some (column_index, index_id)

  -- `find_map`
  unfoldable pub find_target : TableId → List BoundExpr → Option (ℕ × IndexId)
  unfolding target_of
  find_target table_id [] = none
  find_target table_id (expr ∷ exprs) =
      let rest = find_target table_id exprs in
      elim (target_of table_id expr) [ some t ↦ some t | none ↦ rest ]

  unfoldable pub index_scan_bounds :
      BoundExpr → TableId → Option (IndexId × Option Key × Option Key)
  unfolding flatten_and_conjuncts find_target tighten_all
  index_scan_bounds predicate table_id = do
    let conjuncts = flatten_and_conjuncts predicate []
    (target_column, index_id) ← find_target table_id conjuncts
    let bounds = tighten_all target_column conjuncts (none, none)
    some (index_id, bounds.0, bounds.1)
