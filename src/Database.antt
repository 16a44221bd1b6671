-- ===== src/Database.antt =====
-- database/database.hpp.
mod Tests
pub mod Sample
pub mod Defs
pub mod Connected
pub mod Ids
pub mod Creation
pub mod Jobs
pub mod Pushed
pub mod Ensure
pub mod Session
pub mod Unique
