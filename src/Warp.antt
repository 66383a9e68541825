-- ===== src/Warp.antt =====
-- The chain scan, rust/rlz/src/warp.
pub mod Stream
