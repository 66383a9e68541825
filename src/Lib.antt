-- ===== src/Lib.antt =====
-- Verification of zcash-sdk-kmp, the Kotlin Multiplatform Zcash wallet SDK, at its Rust core.
--
-- The core is the crate rust/rlz: payments select notes and compute a fee (pay), a scan follows the
-- chain through a stream of compact blocks (warp), a migration moves Orchard notes to Ironwood in
-- standard denominations (migrate), and a vault keeps encrypted backups of accounts (vault). The
-- bindings in rust/zcash-jni hand these to Kotlin.
--
--   Base          shared names; Base.Tests Boolean tests, words that saturate; Base.Lists lists over
--                 the native numbers; Base.Partial partial functions; Base.Integers integers
--   Pay.PerPool   the arrays that are indexed by pool
--   Pay.Fee       rust/rlz/src/pay/fee.rs: FeeManager, its counters wrapping at 2^8
--   Pay.Pool      rust/rlz/src/pay/pool.rs: PoolMask as a set of four pools in a u8
--   Pay.Solve     rust/rlz/src/pay/solve.rs: the notes, the states, fees and the privacy cost; Search
--                 the state transitions, lower bound and keys; Gather the context of a search; Select
--                 the greedy baseline, the branch and bound and select_notes. Covered, Ranked,
--                 Reached, Winner, Distinct, Loop, Asked and Funded are about what a selection
--                 holds; Total, Rounds, Gathered and Answers about the answer; Cheaper compares
--                 the search with what it starts from; Fees compares the two fees
--   Migrate       rust/rlz/src/migrate/mod.rs: denominations and anchor heights; Migrate.Split the
--                 planning of a split
--   Warp.Stream   rust/rlz/src/warp/sync.rs: read_block_stream, ResumableBlocks and flush_chunk. The
--                 tasks that select! waits for are the events of a trace. Turns is about one event
--   Vault         rust/rlz/src/vault/crypto.rs: Bytes the readers of byteorder, Payload and Entry the
--                 formats, Log parse_entries, Recover the functions that create, extend and open a
--                 vault. The cryptographic crates are a record of functions; Recover.Newest describes
--                 the accounts of a vault without the map of the source
--   Store         rust/rlz/src/db.rs: the tables that reservations use, as lists of rows
--   Pay.Reserve   rust/rlz/src/pay/reserve.rs: reserve_parsed_transaction. Claims is about one upsert,
--                 Held about all of them, Owner, Again and Succeeds about the
--                 whole
--   Sync.Windows  rust/rlz/src/sync.rs: walk_windows and sync_address_range; rust/rlz/src/db.rs:
--                 advance_backfilled_height. What is answered to a window is the event of a trace
--   Sync.Drain    rust/rlz/src/sync.rs: drain_transparent_window; Sync.Ingest write_transparent_window
--                 and the part of sync_address_window that calls them
--   Sync.Rewind   rust/rlz/src/sync.rs: trim_sync_data, rewind_sync and prune_old_checkpoints, and the
--                 functions of rust/rlz/src/account.rs and db.rs that they call; Sync.Tables the tables
--   Jni.Registry  rust/zcash-jni/src/registry.rs: the registry of open wallets
--   Openalias     rust/rlz/src/openalias.rs: split_oa1_pairs; Openalias.Pairs the printing of pairs
--   Tests         runs at concrete inputs
--
-- Errors and panics. A partial function returns an Option, whose none is a panic, or an error that
-- `?` returns; select_notes has a second Option for the source's own. The reader of the vault has an
-- outcome of its own, which tells errors from panics, and the reader of the stream ends with the
-- SyncError that it returns.
--
-- Numbers. A word that can wrap in the source is written with its remainder, as in a release build;
-- wrapping_add, as_i64 and wrap_i64 are those of u64 and i64.
--
-- Bounds. parse_entries has as many rounds as bytes and one more, since each round consumes a byte.
-- The search of select_notes has as many rounds as the source's node limit of 100,000 and one more,
-- after which the source stops by itself. The loop that trims a split has as many rounds as outputs
-- and one more, since each takes one away; the test of a denomination has twenty, the digits of a
-- u64. The reader of the stream and the walk over windows recurse
-- on their traces, and the drain of a window on its stream. The limits on a window's rows are those of
-- a build that is not a test.
--
-- A database is a record of tables, and an SQL statement the function on lists of rows that it
-- stands for; a transaction that fails gives no database back. That SQLite itself fails is not
-- modelled.
--
-- Not modelled: the other SQL, network clients, transaction building and signing, which are calls of other
-- crates, generated bindings, and the Kotlin sources.
pub mod Base
pub mod Store
pub mod Pay
pub mod Migrate
pub mod Warp
pub mod Vault
pub mod Sync
pub mod Jni
pub mod Openalias
mod Tests
