-- ===== src/Reducer.antt =====
-- The reducer of events: src/graphori_core/reducer.py.
pub mod State
pub mod Snapshot
pub mod Steps
pub mod Runs
pub mod Work
pub mod Bindings
pub mod Verdicts
pub mod Platforms
pub mod Apply
pub mod Contract
mod Counts
mod Nodes
mod Moved
mod Leads
mod Handlers
mod Judged
mod Grown
mod Recorded
mod Synced
mod Reaches
mod Passed
mod Laws
mod Samples
mod Tests
