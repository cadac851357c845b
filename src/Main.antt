-- ===== src/Main.antt =====
-- `main` and `sigchld_handler` of main.cpp, up to the processes that `start_ftp_service` forks.
pub mod Defs
pub mod Children
pub mod Follows
pub mod Rules
pub mod Handler
pub mod Forks
pub mod Rounds
pub mod Refines
pub mod Served
