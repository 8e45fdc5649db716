-- ===== src/Api.antt =====
-- ripcord/api: the routes of flags, of keys, of evaluation, of the insights and of the real-time stream.
pub mod Realtime
pub mod Ruleset
pub mod Guarded
pub mod Keys
pub mod Evaluate
pub mod Insights
pub mod Admission
pub mod Evaluated
pub mod Current
pub mod Decided
pub mod Endpoints
pub mod Anonymous
pub mod Flags
pub mod Answers
