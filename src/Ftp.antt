-- ===== src/Ftp.antt =====
-- The ftp process: ftp_protocol.cpp.
pub mod Proc
pub mod Text
pub mod Account
pub mod Data
pub mod Files
pub mod Info
pub mod Site
pub mod Transfer
pub mod Upload
pub mod Service
pub mod Keeps
pub mod Triple
pub mod Connection
pub mod Drops
pub mod Closing
pub mod Ends
pub mod View
pub mod Stored
pub mod Disk
pub mod Contents
pub mod Leaves
pub mod Integrity
pub mod Receive
pub mod Requests
pub mod Finishes
pub mod PasvReply
pub mod Gate
