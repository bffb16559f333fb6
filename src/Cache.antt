-- ===== src/Cache.antt =====
-- src/cache.rs: the cache before the verification service, and what guards its Redis connection.
pub mod Breaker
pub mod Recovery
pub mod Recency
pub mod InMemory
pub mod Capacity
pub mod Redis
pub mod Outage
mod Tests
