-- ===== src/Session/Port.antt =====
-- `Session::get_port_addr` of session.cpp.
pub mod Defs
pub mod RoundTrip
