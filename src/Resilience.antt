-- ===== src/Resilience.antt =====
-- What keeps the proxy going when providers fail: crates/godwit-api/src/circuit_breaker.rs,
-- resilience.rs, fallback.rs, moderation_fallback.rs, rerank_fallback.rs and load_balancer.rs.
pub mod CircuitBreaker
pub mod Retry
pub mod LoadBalancer
pub mod Fallback
pub mod ProviderChain
