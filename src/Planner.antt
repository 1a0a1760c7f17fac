-- ===== src/Planner.antt =====
-- crates/planner: bound expressions, and what the optimizer makes of a predicate.
pub mod BoundExpr
pub mod ScanBounds
pub mod PlannerError
pub mod Binder
pub mod Plan
pub mod Parameters
pub mod Optimizer
