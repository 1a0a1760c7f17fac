-- ===== src/Tests/Scans.antt =====
-- A predicate on an indexed column, and a row on which it is true.
use simple_rdbms.Common.{ℕ, ◌≡◌, refl, arith, true, List, [], ◌∷◌, Option, none, some, ok}
use simple_rdbms.Common.{get_elem?, ◌==◌, if◌then◌else◌}
use simple_rdbms.Common.Int.{pos}
use simple_rdbms.Ids.{TableId, IndexId}
use simple_rdbms.Types.Value.{DataType, Value, boolean, integer}
use simple_rdbms.Types.Memcomparable.{encode_memcomparable}
use simple_rdbms.Planner.BoundExpr.{BoundExpr, literal, column_ref, binary_op}
use simple_rdbms.Sql.Ast.{BinaryOperator}
use simple_rdbms.Planner.ScanBounds.{Key, index_scan_bounds}
use simple_rdbms.Planner.ScanBounds.Candidates.{IsAbove, IsBelow}
use simple_rdbms.Planner.ScanBounds.Covers.{index_scan_bounds-covers}
use simple_rdbms.Executor.Expression.{evaluate}

-- Table 4 has index 8 on its second column.
abbrev indexes : TableId → ℕ → Option IndexId
indexes table_id column_index = if column_index == 1 then some 8 else none

abbrev five_or_more : BoundExpr
five_or_more =
    binary_op (column_ref 1 DataType.integer) BinaryOperator.gt_eq (literal (integer (pos 5)))
      DataType.boolean

abbrev below_nine : BoundExpr
below_nine =
    binary_op (column_ref 1 DataType.integer) BinaryOperator.lt (literal (integer (pos 9)))
      DataType.boolean

abbrev predicate : BoundExpr
predicate = binary_op five_or_more BinaryOperator.and below_nine DataType.boolean

abbrev tuple : List Value
tuple = boolean true ∷ integer (pos 7) ∷ []

abbrev from_five : Key
from_five = 1 ∷ 128 ∷ 0 ∷ 0 ∷ 5 ∷ []

abbrev to_nine : Key
to_nine = 1 ∷ 128 ∷ 0 ∷ 0 ∷ 9 ∷ []

holds : evaluate predicate tuple ≡ ok (boolean true)
unfolding evaluate
holds = refl

chosen : index_scan_bounds indexes predicate 4 ≡ some (8, some from_five, some to_nine)
unfolding index_scan_bounds
chosen = refl

index_scan_bounds-covers_example :
    (c : ℕ) × (v : Value) × (k : Key) × (indexes 4 c ≡ some 8)
    × (get_elem? tuple c ≡ some v)
    × (encode_memcomparable v [] ≡ ok k)
    × IsAbove (some from_five) k
    × IsBelow (some to_nine) k
index_scan_bounds-covers_example =
    index_scan_bounds-covers tuple (tt, (omega arith, tt)) indexes 4 predicate 8 (some from_five)
      (some to_nine) holds ((tt, omega arith), (tt, omega arith)) chosen
