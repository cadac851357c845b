-- ===== src/File/Perm.antt =====
-- The permission text of a listing.
pub mod Defs
pub mod RoundTrip
