-- ===== src/Reconcile.antt =====
-- src/reconcile.rs: what applying a new config to the running daemon would do.
pub mod Report
pub mod Ports
pub mod Compare
pub mod Bridges
pub mod Quiet
pub mod Noop
pub mod Complete
pub mod Unchanged
pub mod Newest
mod Tests
pub mod Reload
