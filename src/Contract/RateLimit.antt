-- ===== src/Contract/RateLimit.antt =====
-- src/lib.rs, `check_rate_limit`, `set_rate_limit_config` and `get_rate_limit_retry_after`.
pub mod Quota
pub mod Burst
use proof_stell_contract.Base.{
  ℕ, ◌/◌, min, max, Option, if◌then◌else◌, ltb, ◌==◌, unwrap_or, holds, not,
}
use proof_stell_contract.Base.Words.{as_u32, saturating_sub, saturating_add_u32, saturating_mul_u64}
use proof_stell_contract.Contract.Host.{
  Host, DataKey, RateLimitScope, RateLimitConfig, RateLimitBucketState,
}
use proof_stell_contract.Contract.Monad.{
  Env, Outcome, unauthorized, not_initialized, rate_limit_exceeded, ◌>>=◌, ◌>>◌, fail, fail_if,
  require_auth, load, load_or, store, delete, ledger_timestamp,
}

-- `RateLimitConfig::default`.
abbrev pub default_config : RateLimitConfig
default_config = record {
  per_address_per_second = 100;
  per_address_burst = 200;
  per_issuer_per_second = 100;
  per_issuer_burst = 200;
}

-- The bucket's capacity and its refill rate.
abbrev pub limits : {Address : Type 0} → RateLimitConfig → RateLimitScope Address → ℕ × ℕ
limits config (RateLimitScope.address _) = (config.per_address_burst, config.per_address_per_second)
limits config (RateLimitScope.issuer _) = (config.per_issuer_burst, config.per_issuer_per_second)

-- The tokens of a bucket once the time since its last refill is folded in.
unfoldable pub refilled : ℕ → ℕ → ℕ → RateLimitBucketState → ℕ
refilled capacity per_second now state =
    let elapsed = saturating_sub now state.last_refill in
    let refill = saturating_mul_u64 elapsed per_second in
    min (saturating_add_u32 state.tokens (as_u32 refill)) capacity

unfoldable pub retry_after : ℕ → ℕ
retry_after per_second = if ltb 0 per_second then max (1 / per_second) 1 else 1

module _ ⦃host : Host⦄ where
  open host use {Address, Symbol, Hash}

  reject_scope : ℕ → RateLimitScope Address → Env → Outcome (Unit {0})
  reject_scope per_second scope = do
    store (DataKey.rate_limit_retry_after scope) (retry_after per_second)
    fail rate_limit_exceeded

  consume_scope : ℕ → ℕ → RateLimitScope Address → Env → Outcome (Unit {0})
  consume_scope now tokens scope = do
    store (DataKey.rate_limit_state scope)
        (record { tokens = saturating_sub tokens 1; last_refill = now })
    delete (DataKey.rate_limit_retry_after scope)

  -- One round of the loop of `check_rate_limit`.
  unfoldable pub check_scope :
      RateLimitConfig → ℕ → RateLimitScope Address → Env → Outcome (Unit {0})
  unfolding reject_scope consume_scope
  check_scope config now scope = do
    let capacity = (limits config scope).0
    let per_second = (limits config scope).1
    found ← load (DataKey.rate_limit_state scope)
    let state = unwrap_or found (record { tokens = capacity; last_refill = now })
    let tokens = refilled capacity per_second now state
    if tokens == 0 then reject_scope per_second scope else consume_scope now tokens scope

  unfoldable pub check_rate_limit : Address → Address → Env → Outcome (Unit {0})
  check_rate_limit caller issuer = do
    found ← load DataKey.rate_limit_config
    now ← ledger_timestamp
    let config = unwrap_or found default_config
    check_scope config now (RateLimitScope.address caller)
    check_scope config now (RateLimitScope.issuer issuer)

  -- The guard that the governance entry points begin with.
  unfoldable pub require_admin : Address → Env → Outcome (Unit {0})
  require_admin admin = do
    require_auth admin
    stored_admin ← load_or DataKey.admin not_initialized
    fail_if (not (holds (host.address_eq stored_admin admin))) unauthorized

  unfoldable pub set_rate_limit_config : Address → RateLimitConfig → Env → Outcome (Unit {0})
  unfolding require_admin
  set_rate_limit_config admin config = do
    require_admin admin
    store DataKey.rate_limit_config config

  unfoldable pub get_rate_limit_retry_after : RateLimitScope Address → Env → Option ℕ
  get_rate_limit_retry_after scope e = host.get (DataKey.rate_limit_retry_after scope) e.store
