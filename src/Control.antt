-- ===== src/Control.antt =====
-- src/control/: what control connections are told.
pub mod Events
pub mod Times
mod Tests
