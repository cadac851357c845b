-- ===== src/Config.antt =====
-- `struct Config`: config/config.h and config/config.cpp.
pub mod Defs
pub mod Laws
