-- ===== src/Vault.antt =====
-- The vault of account backups, rust/rlz/src/vault/crypto.rs: its byte format, its log and the
-- recovery of accounts from it.
pub mod Bytes
pub mod Payload
pub mod Entry
pub mod Log
pub mod Recover
