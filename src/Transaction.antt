-- ===== src/Transaction.antt =====
-- database/transaction.hpp.
pub mod Types
pub mod Push
pub mod Pending
pub mod Update
pub mod Jobs
pub mod Window
pub mod Progress
pub mod Scanned
pub mod Batch
pub mod Moved
pub mod Sends
pub mod System
pub mod Runs
pub mod Invariant
pub mod Steps
pub mod Initial
pub mod Carried
pub mod Supply
pub mod Runnable
pub mod Supplied
pub mod Executed
pub mod Handover
pub mod Order
pub mod Deletion
pub mod Waits
pub mod Counter
mod Tests
