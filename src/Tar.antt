-- ===== src/Tar.antt =====
-- The tar reader and writer of cdoc/Tar.h and cdoc/Tar.cpp, one child for each part.
pub mod Archive
pub mod Octal
pub mod Header
pub mod Pax
pub mod Writer
pub mod Reader
