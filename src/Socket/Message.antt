-- ===== src/Socket/Message.antt =====
-- The messages between the two processes: `send_char`, `get_char`, `send_buf`, `get_int` and
-- `recv_buf` of socket/block_socket.cpp.
pub mod Defs
pub mod Char
pub mod RoundTrip
