-- ===== src/Schemas.antt =====
-- ripcord/schemas.py: request bodies and their validation. An error is a value that names the check;
-- the text of its message is not modelled. Integers are naturals: `ge=0` is in their type.
pub mod Input
pub mod Validate
pub mod Keys
pub mod Evaluate
