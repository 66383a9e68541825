-- ===== src/Tests.antt =====
-- The theorems at concrete inputs, and runs of the model on small data.
mod Pay
mod Migrate
mod Warp
mod Vault
mod Recover
mod Solve
mod Reserve
mod Sync
mod Jni
mod Rewind
mod Ingest
mod Openalias
