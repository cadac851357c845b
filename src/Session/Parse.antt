-- ===== src/Session/Parse.antt =====
-- `Session::parse_command` of session.cpp.
pub mod Defs
pub mod Laws
