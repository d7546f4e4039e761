-- ===== src/Kiss.antt =====
-- src/kiss/ and src/port/stream.rs: KISS frames on a byte stream.
pub mod Frame
pub mod Buffer
pub mod Stream
mod Tests
