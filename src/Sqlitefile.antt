-- ===== src/Sqlitefile.antt =====
-- Package sqlitefile: byte containers that keep their pages in blobs of a temporary table.
pub mod Blobs
pub mod Slice
pub mod Buffer
pub mod File
