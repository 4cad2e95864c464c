-- ===== src/Sprout.antt =====
-- Growth driven by proofs: src/graphori_core/sprout.py.
pub mod Artifact
pub mod Authority
pub mod Lanes
pub mod Cover
pub mod Route
pub mod Shadow
pub mod Profit
pub mod Expand
mod Groups
mod Granted
mod Search
mod Chosen
mod Activated
mod Fallback
mod Expansion
mod Routed
mod Samples
mod Tests
mod Plans
