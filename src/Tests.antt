-- ===== src/Tests.antt =====
-- Concrete runs of the definitions, and theorems at concrete inputs.
mod Engine
mod Auth
mod Cache
mod Services
mod Codec
mod Sdk
mod Api
mod Logging
mod Stream
mod Current
mod Commits
mod Decided
mod Routes
mod History
mod Keys
mod Follow
mod Anonymous
