-- ===== src/Config.antt =====
-- src/config.rs: the configuration, read from the variables of the environment.
pub mod Variables
pub mod Versions
pub mod Parse
mod RateFields
mod StellarFields
mod CacheFields
mod WebhookFields
mod Checks
mod Load
mod Ranges
mod Groups
mod Accepted
mod Clients
mod Tests
