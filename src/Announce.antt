-- ===== src/Announce.antt =====
-- src/announce.rs: the announcement of TCP servers by DNS-SD.
pub mod Service
pub mod Names
pub mod Backend
pub mod Announcer
mod Tests
