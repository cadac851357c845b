-- ===== src/Session.antt =====
-- The context of one client: session.h and session.cpp.
pub mod Address
pub mod Defs
pub mod Split
pub mod Port
pub mod Parse
