-- ===== src/Pool.antt =====
-- memory/per_thread_pool.hpp.
mod Tests
pub mod Sample
pub mod Defs
pub mod Blocks
pub mod Lives
