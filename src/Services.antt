-- ===== src/Services.antt =====
-- ripcord/services.py: the operations on flags, their audit entries and optimistic locking, and the
-- projections that the engine reads.
pub mod Store
pub mod Flags
pub mod Operations
pub mod Locking
pub mod Removal
pub mod Payload
pub mod RoundTrip
pub mod Keyed
pub mod Cached
pub mod Announced
pub mod Commits
pub mod Ordered
pub mod Valid
mod Apply
pub mod Consistent
pub mod Updated
mod Sorted
pub mod History
pub mod Refinement
