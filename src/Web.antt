-- ===== src/Web.antt =====
-- The crates of the web framework: crates/agilang-framework-rate-limit.
pub mod RateLimit
