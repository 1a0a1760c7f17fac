-- ===== src/Executor/Factory.antt =====
-- `build_executor` of crates/engine/src/executor_factory.rs, for the operators of Operators.
use simple_rdbms.Common.{false, Option, none, some, []}
use simple_rdbms.Planner.Plan.{PhysicalPlan}
use simple_rdbms.Executor.Operators.{Executor, one_row, seq_scan, filter, projection}

-- `none` is `unreachable!`, and a plan with an operator that is not in the tree.
unfoldable pub build_executor : PhysicalPlan → Option Executor
build_executor PhysicalPlan.one_row = some (one_row false)
build_executor (PhysicalPlan.seq_scan table_id) = some (
    seq_scan
      (record { table_id = table_id; column_types = []; current_page = none; next_slot = 0 }))
build_executor (PhysicalPlan.filter predicate input) = elim (build_executor input) [
  | none ↦ none
  | some child ↦ some (filter predicate child)
]
build_executor (PhysicalPlan.projection expressions input) = elim (build_executor input) [
  | none ↦ none
  | some child ↦ some (projection expressions child)
]
build_executor _ = none
