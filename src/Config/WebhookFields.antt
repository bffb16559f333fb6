-- ===== src/Config/WebhookFields.antt =====
-- src/config.rs: the variables of the webhooks.
use proof_stell_contract.Base.{ℕ, Bool}
use proof_stell_contract.Base.Words.{u32_max, u64_max}
use proof_stell_contract.Config.Variables.{Variable, bytes, Environment}
use proof_stell_contract.Config.Parse.{
  Reading, get_env_or_default, take_any, take_bounded, take_boolean, read,
}

module _ (env : Environment) where
  unfoldable pub webhook_max_retries : Reading ℕ
  webhook_max_retries =
      read take_any u32_max Variable.webhook_max_retries 5
        (get_env_or_default env Variable.webhook_max_retries (bytes "5"))

  unfoldable pub webhook_retry_base_delay_ms : Reading ℕ
  webhook_retry_base_delay_ms =
      read take_bounded u64_max Variable.webhook_retry_base_delay_ms 200
        (get_env_or_default env Variable.webhook_retry_base_delay_ms (bytes "200"))

  unfoldable pub webhook_retry_max_delay_ms : Reading ℕ
  webhook_retry_max_delay_ms =
      read take_bounded u64_max Variable.webhook_retry_max_delay_ms 30000
        (get_env_or_default env Variable.webhook_retry_max_delay_ms (bytes "30000"))

  unfoldable pub webhook_request_timeout_ms : Reading ℕ
  webhook_request_timeout_ms =
      read take_bounded u64_max Variable.webhook_request_timeout_ms 10000
        (get_env_or_default env Variable.webhook_request_timeout_ms (bytes "10000"))

  unfoldable pub webhook_jitter_enabled : Reading Bool
  webhook_jitter_enabled =
      take_boolean Variable.webhook_jitter_enabled
        (get_env_or_default env Variable.webhook_jitter_enabled (bytes "true"))
