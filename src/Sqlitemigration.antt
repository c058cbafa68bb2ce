-- ===== src/Sqlitemigration.antt =====
-- Package sqlitemigration: schemas are brought up to date by numbered scripts, and a pool
-- is opened behind that.
pub mod Store
pub mod Migrate
pub mod Pool
