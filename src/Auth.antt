-- ===== src/Auth.antt =====
-- ripcord/auth.py: scopes, keys, credentials, verification with its cache, and the dependency that
-- guards the routes.
pub mod Scopes
pub mod Key
pub mod KeyFormat
pub mod Store
pub mod Verify
pub mod Sound
pub mod Mirror
pub mod Revoke
pub mod Kept
pub mod Window
pub mod Guard
pub mod GuardLaws
pub mod Accept
