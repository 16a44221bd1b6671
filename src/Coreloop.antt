-- ===== src/Coreloop.antt =====
-- core/coreloop.hpp, and the plugins that are a few lines each.
mod Tests
pub mod Hooks
pub mod Loop
pub mod Once
pub mod Scheduled
pub mod Receive
pub mod Operations
pub mod Start
pub mod Sending
pub mod Received
pub mod Stop
pub mod Stages
pub mod Shutdown
