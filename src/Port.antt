-- ===== src/Port.antt =====
-- src/port/: the TCP server, and what happens on a link to a TNC before its bridge uses it.
pub mod Server
pub mod Scan
pub mod Radio
pub mod Init
pub mod Prefixed
mod Tests
