-- ===== src/System.antt =====
-- The functions of socket/block_socket.cpp, ipc/socket_ipc.cpp, file/file_utility.cpp and
-- process/process_utility.cpp that wrap system calls, and the nobody process of ftp_protocol.cpp.
pub mod Calls
pub mod Retry
pub mod Keeps
pub mod Timeout
pub mod View
pub mod Create
pub mod Held
pub mod Ipc
pub mod Nobody
pub mod Speed
