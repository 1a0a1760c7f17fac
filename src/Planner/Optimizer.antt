-- ===== src/Planner/Optimizer.antt =====
-- `Optimizer` and `IndexScanRule` of crates/planner/src/optimizer.rs.
pub mod Keeps
use simple_rdbms.Common.{ℕ, Option, none, some, List, [], ◌∷◌}
use simple_rdbms.Ids.{TableId, IndexId}
use simple_rdbms.Catalog.State.{CatalogState, index_for_column}
use simple_rdbms.Planner.BoundExpr.{BoundExpr}
use simple_rdbms.Planner.Plan.{LogicalPlan}
use simple_rdbms.Planner.ScanBounds.{index_scan_bounds}

abbrev pub OptimizerRule : Type 0
OptimizerRule = LogicalPlan → CatalogState → LogicalPlan

-- The index that `index_scan_bounds` asks the catalog for, by its id.
unfoldable pub index_id_for : CatalogState → TableId → ℕ → Option IndexId
unfolding index_for_column
index_id_for catalog table_id column_index = elim (index_for_column catalog table_id column_index) [
  | none ↦ none
  | some info ↦ some info.index_id
]

-- The arm of a filter over a sequential scan.
unfoldable pub bounded_scan : BoundExpr → TableId → CatalogState → LogicalPlan
unfolding index_scan_bounds index_id_for
bounded_scan predicate table_id catalog =
    elim (index_scan_bounds (index_id_for catalog) predicate table_id) [
      | some (index_id, start, end) ↦
          LogicalPlan.filter predicate (LogicalPlan.index_scan index_id table_id start end)
      | none ↦ LogicalPlan.filter predicate (LogicalPlan.seq_scan table_id)
    ]

unfoldable pub index_scan_rule : OptimizerRule
unfolding bounded_scan
index_scan_rule (LogicalPlan.filter predicate (LogicalPlan.seq_scan table_id)) catalog =
    bounded_scan predicate table_id catalog
index_scan_rule other catalog = other

-- The fold over the rules.
unfoldable pub apply_rules : List OptimizerRule → LogicalPlan → CatalogState → LogicalPlan
apply_rules [] plan catalog = plan
apply_rules (rule ∷ rules) plan catalog = apply_rules rules (rule plan catalog) catalog

-- `optimize`, with `recurse_into_children`.
unfoldable pub optimize : List OptimizerRule → LogicalPlan → CatalogState → LogicalPlan
unfolding apply_rules
optimize rules (LogicalPlan.filter predicate input) catalog =
    apply_rules rules (LogicalPlan.filter predicate (optimize rules input catalog)) catalog
optimize rules (LogicalPlan.projection expressions input) catalog =
    apply_rules rules (LogicalPlan.projection expressions (optimize rules input catalog)) catalog
optimize rules (LogicalPlan.join left right predicate) catalog =
    apply_rules rules
      (LogicalPlan.join (optimize rules left catalog) (optimize rules right catalog) predicate)
      catalog
optimize rules leaf catalog = apply_rules rules leaf catalog
