-- ===== src/System/Create.antt =====
-- Sockets and their addresses.
pub mod Defs
pub mod Steady
pub mod Fails
