-- ===== src/Webhook.antt =====
-- src/webhook.rs: deliveries with retries, and their dead letters.
pub mod Dispatch
pub mod DeadLetters
mod Drain
mod Rounds
mod Lossless
mod Emptied
mod Tests
