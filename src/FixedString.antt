-- ===== src/FixedString.antt =====
-- core/fixed_string.hpp: the literal as a template argument. Memory is a list of bytes.
mod Tests
pub mod Text
