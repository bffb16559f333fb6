-- ===== src/Audit.antt =====
-- src/event.rs: audit events, their ingestion and their store.
pub mod Events
pub mod Ordering
mod Decimal
mod Keys
mod Identity
mod Tests
