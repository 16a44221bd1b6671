-- ===== src/Network/Threads.antt =====
-- core/coreloop_network_plugin.hpp with packets and disconnects between the sections of a tick.
mod Tests
pub mod System
pub mod Vectors
pub mod Locals
pub mod Given
pub mod Invariant
pub mod Drops
pub mod Packets
pub mod Sections
pub mod Order
pub mod Progress
pub mod Again
