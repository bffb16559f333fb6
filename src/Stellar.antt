-- ===== src/Stellar.antt =====
-- src/stellar.rs: the client of Horizon, with its retries and its circuit breaker.
pub mod Errors
pub mod Breaker
mod Floats
pub mod Client
mod Answers
pub mod Verify
mod Guarded
pub mod Transitions
mod Opens
mod Accounts
mod Attempts
mod Unreachable
mod Memo
mod Confirmed
pub mod Delays
mod Malformed
pub mod Tests
