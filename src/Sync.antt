-- ===== src/Sync.antt =====
-- The synchronization of accounts with the chain, rust/rlz/src/sync.rs.
pub mod Windows
pub mod Tables
pub mod Rewind
pub mod Drain
pub mod Ingest
