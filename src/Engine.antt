-- ===== src/Engine.antt =====
-- ripcord/engine.py: the flag-evaluation engine, and in further children what is proved of it.
pub mod Spec
pub mod Bucket
pub mod Rules
pub mod Variants
pub mod Evaluate
pub mod Sorting
pub mod Reorder
pub mod Rollout
pub mod Decision
pub mod Weights
pub mod Material
pub mod Served
