-- ===== src/Config/RateFields.antt =====
-- src/config.rs: the variables of the service and of the rate limits.
use proof_stell_contract.Base.{ℕ, ◌*◌, if◌then◌else◌, Option, none, some, unwrap_or, [], ◌∷◌, min}
use proof_stell_contract.Base.Words.{u32_max, u64_max, as_u32}
use proof_stell_contract.Hash.Tools.{Text}
use proof_stell_contract.Config.Variables.{Variable, Complaint, bytes, Environment}
use proof_stell_contract.Config.Versions.{port_max, new_port}
use proof_stell_contract.Config.Parse.{
  Reading, get_env_or_default, parse, take_any, take_positive, one_of, lowercase, unless, read,
  is_url, is_redis_url,
}

module _ (env : Environment) where
  unfoldable pub port_of : Option ℕ → Reading ℕ
  port_of (some p) = if new_port p then (p, []) else (8080, Complaint.out_of_range p ∷ [])
  port_of none = (
    8080,
    Complaint.not_a_number Variable.port (get_env_or_default env Variable.port (bytes "8080")) ∷ [],
  )

  unfoldable pub port : Reading ℕ
  unfolding port_of
  port = port_of (parse port_max (get_env_or_default env Variable.port (bytes "8080")))

  abbrev key_of : Option Text → Reading (Option Text)
  key_of none = (none, Complaint.not_set Variable.stellar_secret_key ∷ [])
  key_of (some key) = (
    some key,
    unless (env.is_secret_key key) (Complaint.not_valid Variable.stellar_secret_key key),
  )

  unfoldable pub stellar_secret_key : Reading (Option Text)
  stellar_secret_key = key_of (env.var Variable.stellar_secret_key)

  unfoldable pub stellar_horizon_url : Reading Text
  stellar_horizon_url =
      let url =
        get_env_or_default env Variable.stellar_horizon_url
          (bytes "https://horizon-testnet.stellar.org") in
      (url, unless (is_url env url) (Complaint.not_valid Variable.stellar_horizon_url url))

  unfoldable pub redis_url : Reading Text
  redis_url =
      let url = get_env_or_default env Variable.redis_url (bytes "redis://127.0.0.1:6379") in
      (url, unless (is_redis_url env url) (Complaint.not_valid Variable.redis_url url))

  unfoldable pub log_level : Reading Text
  log_level =
      let level = get_env_or_default env Variable.log_level (bytes "info") in
      let levels =
        bytes "trace" ∷ bytes "debug" ∷ bytes "info" ∷ bytes "warn" ∷ bytes "error" ∷ [] in
      (
        level,
        unless (one_of (lowercase level) levels)
            (Complaint.none_of_these Variable.log_level (lowercase level)),
      )

  abbrev rate_limit_per_second_raw : Text
  rate_limit_per_second_raw = get_env_or_default env Variable.rate_limit_per_second (bytes "100")

  unfoldable pub rate_limit_per_second : Reading ℕ
  rate_limit_per_second =
      read take_positive u32_max Variable.rate_limit_per_second 100 rate_limit_per_second_raw

  unfoldable pub rate_limit_burst : Reading ℕ
  rate_limit_burst =
      read take_any u32_max Variable.rate_limit_burst rate_limit_per_second.0
        (get_env_or_default env Variable.rate_limit_burst rate_limit_per_second_raw)

  abbrev pub per_issuer_rps_raw : Text
  per_issuer_rps_raw = get_env_or_default env Variable.per_issuer_rate_limit_per_second (bytes "10")

  unfoldable pub per_issuer_rate_limit_per_second : Reading ℕ
  per_issuer_rate_limit_per_second =
      read take_positive u32_max Variable.per_issuer_rate_limit_per_second 10 per_issuer_rps_raw

  -- The default is printed and parsed again, which gives the number back.
  abbrev pub per_issuer_burst_default : ℕ
  per_issuer_burst_default = min (unwrap_or (parse u32_max per_issuer_rps_raw) 10 * 2) u32_max

  abbrev pub per_issuer_burst_of : Option Text → Reading ℕ
  per_issuer_burst_of (some raw) =
      read take_positive u32_max Variable.per_issuer_rate_limit_burst
        (as_u32 (per_issuer_rate_limit_per_second.0 * 2)) raw
  per_issuer_burst_of none =
      take_positive Variable.per_issuer_rate_limit_burst
        (as_u32 (per_issuer_rate_limit_per_second.0 * 2)) [] (some per_issuer_burst_default)

  unfoldable pub per_issuer_rate_limit_burst : Reading ℕ
  per_issuer_rate_limit_burst = per_issuer_burst_of (env.var Variable.per_issuer_rate_limit_burst)

  unfoldable pub issuer_rate_limit_ttl_seconds : Reading ℕ
  issuer_rate_limit_ttl_seconds =
      read take_positive u64_max Variable.issuer_rate_limit_ttl_seconds 3600
        (get_env_or_default env Variable.issuer_rate_limit_ttl_seconds (bytes "3600"))

  unfoldable pub per_issuer_rate_limit_jitter_seconds : Reading ℕ
  per_issuer_rate_limit_jitter_seconds =
      read take_any u64_max Variable.per_issuer_rate_limit_jitter_seconds 0
        (get_env_or_default env Variable.per_issuer_rate_limit_jitter_seconds (bytes "0"))
