-- ===== src/Runtime.antt =====
-- The runtime crates: crates/agilang-runtime-core.
pub mod Handles
