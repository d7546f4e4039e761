-- ===== src/Config.antt =====
-- src/config/ and `allowed` of src/port/listen.rs: the configuration, from its files to the effective
-- config, and its rules.
pub mod Settings
pub mod Addresses
pub mod Model
pub mod Networks
pub mod Conflicts
mod Tests
pub mod Ports
pub mod Problem
pub mod Validate
pub mod Text
pub mod Values
pub mod File
pub mod Resolve
pub mod Macs
pub mod State
