-- ===== src/Pay.antt =====
-- The payment core, rust/rlz/src/pay.
pub mod PerPool
pub mod Fee
pub mod Pool
pub mod Solve
pub mod Reserve
