-- ===== src/Network.antt =====
-- core/coreloop_network_plugin.hpp.
mod Tests
pub mod Defs
pub mod Tick
pub mod Valid
pub mod Conserve
pub mod Delivery
pub mod Ticks
pub mod Disconnect
pub mod TickValid
pub mod Drain
pub mod Threads
