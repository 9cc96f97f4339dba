-- ===== src/Execution.antt =====
-- execution/: the executors of physical plans, and the query processor of server/ above them.
pub mod Engine
pub mod Select
pub mod Write
pub mod Execute
pub mod Rows
pub mod Bound
pub mod IndexChoice
pub mod SelectPlan
pub mod Changes
mod Examples
