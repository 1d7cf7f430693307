-- ===== src/Unicode.antt =====
-- unicode.c: UTF-8 encoding and decoding, identifier characters and display widths.
pub mod Utf8
pub mod Ranges
pub mod Width
mod Tests
