-- ===== src/Text.antt =====
-- Byte strings: a `std::string` and the contents of a `char` buffer are lists of byte values.
pub mod Bytes
pub mod Stream
pub mod Decimal
pub mod Words
