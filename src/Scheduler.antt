-- ===== src/Scheduler.antt =====
-- The scheduler of src/graphori_core/scheduler.py. State, Scope, Order, Cost, Place and Decide hold
-- the definitions, the other modules the theorems.
pub mod State
pub mod Scope
pub mod Order
pub mod Cost
pub mod Place
pub mod Proofs
pub mod Decide
pub mod Overlap
pub mod Wave
pub mod Gates
pub mod Dispatch
pub mod Proved
pub mod Counts
pub mod Run
pub mod Safety
pub mod Progress
pub mod Samples
mod Tests
