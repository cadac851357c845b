-- ===== src/File.antt =====
-- file/file_utility.cpp: listings and locks.
pub mod Perm
pub mod Defs
pub mod Bounds
pub mod Lock
