-- ===== src/Cache.antt =====
-- ripcord/cache.py: the ruleset in Redis, behind an interface for Redis itself.
pub mod Redis
pub mod Ruleset
pub mod Fence
pub mod Failed
pub mod System
mod Changes
mod Rebuilds
pub mod Coherence
pub mod Notified
