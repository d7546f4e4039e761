-- ===== src/Bridge.antt =====
-- src/bridge/: the bridge task.
pub mod Policy
pub mod Channel
pub mod State
pub mod Link
pub mod Apps
pub mod Commands
pub mod Tnc
pub mod Run
pub mod Accounts
pub mod Waiting
pub mod Hold
pub mod Broadcast
pub mod Backoff
pub mod Late
pub mod Teardown
pub mod Writer
pub mod Snapshot
pub mod Filtered
mod Tests
pub mod Going
