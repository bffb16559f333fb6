-- ===== src/Config/Checks.antt =====
-- src/config.rs: the checks of one variable against another, and the list of webhooks.
use proof_stell_contract.Base.{ltb, leb, ◌==◌, not, List, [], ◌∷◌, map}
use proof_stell_contract.Hash.Tools.{Text}
use proof_stell_contract.Config.Variables.{Variable, Complaint, bytes, Environment}
use proof_stell_contract.Config.Parse.{
  get_env_or_default, unless, is_url, trim, split_commas, drop_empty, flatten,
}
use proof_stell_contract.Config.RateFields
use proof_stell_contract.Config.StellarFields
use proof_stell_contract.Config.WebhookFields

module _ (env : Environment) where
  unfoldable pub burst_positive : List Complaint
  burst_positive =
      unless (not ((RateFields.rate_limit_burst env).0 == 0))
        (Complaint.not_positive Variable.rate_limit_burst)

  unfoldable pub burst_covers : List Complaint
  burst_covers =
      let a = (RateFields.rate_limit_burst env).0 in
      let b = (RateFields.rate_limit_per_second env).0 in
      unless (not (ltb a b))
        (Complaint.less_than Variable.rate_limit_burst a Variable.rate_limit_per_second b)

  unfoldable pub issuer_burst_covers : List Complaint
  issuer_burst_covers =
      let a = (RateFields.per_issuer_rate_limit_burst env).0 in
      let b = (RateFields.per_issuer_rate_limit_per_second env).0 in
      unless (not (ltb a b)) (
        Complaint.less_than Variable.per_issuer_rate_limit_burst a
          Variable.per_issuer_rate_limit_per_second b)

  unfoldable pub issuer_within : List Complaint
  issuer_within =
      let a = (RateFields.per_issuer_rate_limit_per_second env).0 in
      let b = (RateFields.rate_limit_per_second env).0 in
      unless (not (ltb b a)) (
        Complaint.more_than Variable.per_issuer_rate_limit_per_second a
          Variable.rate_limit_per_second b)

  unfoldable pub jitter_within : List Complaint
  jitter_within =
      let a = (RateFields.per_issuer_rate_limit_jitter_seconds env).0 in
      let b = (RateFields.issuer_rate_limit_ttl_seconds env).0 in
      unless (not (leb b a)) (
        Complaint.not_less_than Variable.per_issuer_rate_limit_jitter_seconds a
          Variable.issuer_rate_limit_ttl_seconds b)

  unfoldable pub stellar_delays : List Complaint
  stellar_delays =
      let a = (StellarFields.stellar_retry_max_delay_ms env).0 in
      let b = (StellarFields.stellar_retry_base_delay_ms env).0 in
      unless (not (ltb a b)) (
        Complaint.less_than Variable.stellar_retry_max_delay_ms a
          Variable.stellar_retry_base_delay_ms b)

  unfoldable pub webhook_delays : List Complaint
  webhook_delays =
      let a = (WebhookFields.webhook_retry_max_delay_ms env).0 in
      let b = (WebhookFields.webhook_retry_base_delay_ms env).0 in
      unless (not (ltb a b)) (
        Complaint.less_than Variable.webhook_retry_max_delay_ms a
          Variable.webhook_retry_base_delay_ms b)

  unfoldable pub url_list : List Text
  unfolding trim split_commas drop_empty
  url_list =
      drop_empty (map trim (split_commas (get_env_or_default env Variable.webhook_urls (bytes ""))))

  unfoldable pub url_faults : List Text → List (List Complaint)
  url_faults [] = []
  url_faults (url ∷ urls) =
      unless (is_url env url) (Complaint.not_valid Variable.webhook_urls url) ∷ url_faults urls

  unfoldable pub urls : List Complaint
  unfolding url_faults
  urls = flatten (url_faults url_list)
