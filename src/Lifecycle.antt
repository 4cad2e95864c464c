-- ===== src/Lifecycle.antt =====
-- How the states of nodes, tasks and attempts change: src/graphori_core/models.py and the
-- transition tables of src/graphori_core/compiler.py.
pub mod Member
pub mod Node
pub mod Moves
pub mod Task
pub mod Attempt
pub mod Attempts
mod Tests
