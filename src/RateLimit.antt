-- ===== src/RateLimit.antt =====
-- Rate limiting: crates/godwit-api/src/rate_limit.rs and login_rate_limit.rs.
pub mod Bucket
pub mod Limiter
pub mod Login
