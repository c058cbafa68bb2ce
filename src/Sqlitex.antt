-- ===== src/Sqlitex.antt =====
-- Package sqlitex: helpers on connections, statements and pools.
pub mod Attempt
pub mod Bitset
pub mod Database
pub mod Exec
pub mod Pool
pub mod Query
pub mod Savepoint
pub mod Statements
