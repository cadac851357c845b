-- ===== src/ConnectionLimit.antt =====
-- The connection counters of connection_limit.cpp, and main.cpp as the process that uses them.
pub mod Defs
pub mod Master
pub mod Invariant
pub mod Safety
