-- ===== src/Hash.antt =====
-- src/hash_validator.rs: what a hash is checked for, its canonical form, and the registry.
pub mod Tools
pub mod Validator
mod Ascii
mod ConstantTime
pub mod Canonical
mod Registry
pub mod Policy
mod Bytes
mod NoPanic
pub mod RoundTrip
mod Once
pub mod Tests
