-- ===== src/Risk.antt =====
-- Risk classification: compile_risk of src/graphori_core/compiler.py.
pub mod Input
pub mod Compile
pub mod Laws
mod Tests
