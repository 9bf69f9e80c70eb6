-- ===== src/Text.antt =====
-- Texts of cdoc/Utils.h and cdoc/Utils.cpp: hex, URL escapes, lists of parts, UTF-8, the names of
-- extracted files and recipient identifiers.
pub mod Hex
pub mod Url
pub mod Parts
pub mod Utf8
pub mod Filename
pub mod Etsi
mod Tests
