-- ===== src/Plan.antt =====
-- The execution plan of a run: src/graphori_core/run_plan.py.
pub mod Criterion
pub mod Node
pub mod Resolve
pub mod Build
pub mod Samples
mod Tests
