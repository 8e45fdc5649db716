-- ===== src/Sdk.antt =====
-- ripcord/sdk/client.py: the client that evaluates flags on its own copy of the ruleset.
pub mod Client
pub mod Watch
pub mod Lifecycle
pub mod Credential
pub mod Follow
pub mod Agreement
pub mod Fresh
pub mod Entries
pub mod Snapshot
pub mod Current
pub mod Stream
