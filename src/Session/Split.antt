-- ===== src/Session/Split.antt =====
-- `split` and `Session::split_arg` of session.cpp.
pub mod Defs
pub mod Words
pub mod Laws
