-- ===== src/System/Timeout.antt =====
-- The waits of socket/block_socket.cpp.
pub mod Defs
pub mod Blocking
pub mod Ends
pub mod Steady
