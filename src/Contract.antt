-- ===== src/Contract.antt =====
-- src/lib.rs: the Soroban contract.
pub mod Host
pub mod Monad
pub mod RateLimit
pub mod Documents
pub mod Governance
mod Memory
mod Tests
mod Frames
pub mod History
