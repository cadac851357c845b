-- ===== src/Socket.antt =====
-- The blocking socket calls of socket/block_socket.cpp.
pub mod Channel
pub mod Transfer
pub mod ReadN
pub mod WriteN
pub mod Lines
pub mod Readline
pub mod Message
