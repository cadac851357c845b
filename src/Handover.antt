-- ===== src/Handover.antt =====
-- What the ftp process and the nobody process of ftp_protocol.cpp say to each other on their socket
-- pair.
pub mod Spec
pub mod Wire
pub mod Quiet
pub mod Rounds
pub mod Served
pub mod Client
pub mod Asked
pub mod Pasv
pub mod Agreement
