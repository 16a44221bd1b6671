-- ===== src/Bson.antt =====
-- database/bson_reflection_struct.hpp.
mod Tests
pub mod Hash
pub mod Visit
pub mod Members
pub mod Visits
pub mod Fields
