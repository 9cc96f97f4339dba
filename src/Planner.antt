-- ===== src/Planner.antt =====
-- planner/: a statement is bound against the catalog and becomes a logical and then a physical plan.
pub mod Plans
pub mod Binder
pub mod Build
