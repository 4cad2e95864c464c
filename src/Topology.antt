-- ===== src/Topology.antt =====
-- The graph that a task is compiled to: compile_topology and what it calls in
-- src/graphori_core/compiler.py, and the graph of src/graphori_core/models.py.
pub mod Role
pub mod Graph
pub mod Mode
pub mod Compile
pub mod Samples
mod Staff
pub mod Laws
mod Tests
