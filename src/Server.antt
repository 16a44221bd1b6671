-- ===== src/Server.antt =====
-- The parts together: the receive handler of core/coreloop.hpp, the packet job of
-- core/coreloop_network_plugin.hpp, the memory pools, and the program of main.cpp.
mod Tests
pub mod Hooks
pub mod System
pub mod Begin
pub mod Receives
pub mod Packets
pub mod Sections
pub mod Owned
pub mod Handed
pub mod Ownership
pub mod Sound
pub mod Stored
pub mod Schedule
pub mod Main
