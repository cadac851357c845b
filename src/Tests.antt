-- ===== src/Tests.antt =====
-- Runs of the model at concrete inputs.
pub mod Session
pub mod Socket
pub mod Main
pub mod Master
pub mod Config
pub mod Ftp
pub mod File
pub mod System
