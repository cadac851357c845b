-- ===== src/Ftp/Gate.antt =====
-- The login gate of ftp_protocol.cpp: what a client reaches before and after it has logged in.
pub mod Defs
pub mod Account
pub mod Data
pub mod Files
pub mod Info
pub mod Site
pub mod Transfer
pub mod Upload
pub mod Quiet
pub mod Login
pub mod Handlers
pub mod Safe
