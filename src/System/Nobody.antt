-- ===== src/System/Nobody.antt =====
-- The nobody process of ftp_protocol.cpp.
pub mod Defs
pub mod Descriptors
pub mod Ends
pub mod Passive
pub mod Keeps
pub mod Gate
