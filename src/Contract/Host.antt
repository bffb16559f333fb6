-- ===== src/Contract/Host.antt =====
-- src/lib.rs, the stored types, and what the contract uses of the Soroban SDK: addresses, 32-byte
-- hashes and symbols with equality, persistent storage, the ledger clock, authorisation.
use proof_stell_contract.Base.{ℕ, Bool, ◌≡◌, ◌≢◌, Option, none, some}

pub data DocumentStatus : Type 0 where
  active revoked : DocumentStatus

pub record DocumentRecord (Address : Type 0) : Type 0 where
  pub issuer : Address
  pub owner : Address
  pub timestamp : ℕ
  pub status : DocumentStatus

pub record RateLimitConfig : Type 0 where
  pub per_address_per_second : ℕ
  pub per_address_burst : ℕ
  pub per_issuer_per_second : ℕ
  pub per_issuer_burst : ℕ

pub record RateLimitBucketState : Type 0 where
  pub tokens : ℕ
  pub last_refill : ℕ

pub data RateLimitScope (Address : Type 0) : Type 0 where
  address : Address → RateLimitScope Address
  issuer : Address → RateLimitScope Address

pub data DataKey (Address Hash Symbol : Type 0) : Type 0 where
  document : Hash → DataKey Address Hash Symbol
  admin version : DataKey Address Hash Symbol
  feature_flag : Symbol → DataKey Address Hash Symbol
  rate_limit_config : DataKey Address Hash Symbol
  rate_limit_state rate_limit_retry_after : RateLimitScope Address → DataKey Address Hash Symbol

-- The type of what the contract stores under a key.
abbrev pub Value : {Address Hash Symbol : Type 0} → DataKey Address Hash Symbol → Type 0
Value {Address} (document _) = DocumentRecord Address
Value {Address} admin = Address
Value version = ℕ
Value (feature_flag _) = Bool
Value rate_limit_config = RateLimitConfig
Value (rate_limit_state _) = RateLimitBucketState
Value (rate_limit_retry_after _) = ℕ

pub record Host : Type 1 where
  pub Address : Type 0
  pub Hash : Type 0
  pub Symbol : Type 0
  pub address_eq : Discrete Address
  pub hash_eq : Discrete Hash
  pub Store : Type 0
  pub get : (k : DataKey Address Hash Symbol) → Store → Option (Value k)
  pub set : (k : DataKey Address Hash Symbol) → Value k → Store → Store
  pub remove : DataKey Address Hash Symbol → Store → Store
  pub get-set_self :
      (k : DataKey Address Hash Symbol) (v : Value k) (s : Store) → get k (set k v s) ≡ some v
  pub get-set_ne :
      (j k : DataKey Address Hash Symbol) (v : Value k) (s : Store)
      → j ≢ k
      → get j (set k v s) ≡ get j s
  pub get-remove_self : (k : DataKey Address Hash Symbol) (s : Store) → get k (remove k s) ≡ none
  pub get-remove_ne :
      (j k : DataKey Address Hash Symbol) (s : Store) → j ≢ k → get j (remove k s) ≡ get j s
  -- What persists of an invocation that fails: the store before it, and the store when it failed.
  pub rollback : Store → Store → Store
  pub rollback_lem : (before at_failure : Store) → rollback before at_failure ≡ before
