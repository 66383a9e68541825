-- ===== src/Jni.antt =====
-- The bindings, rust/zcash-jni.
pub mod Registry
