-- ===== src/Zip.antt =====
-- zip.cc and zip.h: the archive format, its entries and the archive.
pub mod Format
pub mod Stream
pub mod Entry
pub mod Archive
