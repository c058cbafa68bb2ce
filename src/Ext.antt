-- ===== src/Ext.antt =====
-- The packages under ext/ and what they use of the root package.
pub mod IndexTypes
pub mod Generateseries
