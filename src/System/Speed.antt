-- ===== src/System/Speed.antt =====
-- The speed limit of session.cpp.
pub mod Defs
pub mod Pause
pub mod Sleep
