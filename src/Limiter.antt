-- ===== src/Limiter.antt =====
-- src/rate_limit.rs: the off-chain limiter, a token bucket for each issuer behind a global one.
pub mod Bucket
pub mod Level
pub mod Clock
pub mod Callers
pub mod Issuers
pub mod Eviction
mod Alike
mod Harmless
mod Tests
