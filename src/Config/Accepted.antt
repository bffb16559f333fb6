-- ===== src/Config/Accepted.antt =====
-- src/config.rs, `from_env`: what holds of a configuration that is accepted.
use proof_stell_contract.Base.{◌≡◌, refl, subst, List, [], ◌∷◌}
use proof_stell_contract.Config.Variables.{Complaint, Environment}
use proof_stell_contract.Config.Parse.{flatten}
use proof_stell_contract.Config.Ranges.{nil-append}
use proof_stell_contract.Config.Load.{
  AppConfig, Loaded, service_faults, stellar_faults, cache_faults, faults, config, decide, from_env,
}
use proof_stell_contract.Config.Groups.{
  Rates, StellarRanges, CacheRanges, WebhookRanges, service_faults-Rates,
  stellar_faults-StellarRanges, cache_faults-CacheRanges, last_faults-WebhookRanges,
}

-- The ranges of an accepted configuration.
pub record IsValid (c : AppConfig) : Type 0 where
  pub rates : Rates c
  pub stellar : StellarRanges c
  pub cache : CacheRanges c
  pub webhook : WebhookRanges c

accepted-nil :
    (env : Environment) (parts : List Complaint) (c : AppConfig)
    → decide env parts ≡ Loaded.accepted c
    → (parts ≡ []) × (config env ≡ c)
accepted-nil env [] c p = (refl, cc p)
accepted-nil env (x ∷ xs) c p = cc p

-- An accepted configuration is in range, whatever the environment holds: the port, the rates and
-- their bursts, the delays and their order, the thresholds, and the jitter below the time that an
-- issuer is kept.
pub from_env-IsValid :
    (env : Environment) (c : AppConfig) → from_env env ≡ Loaded.accepted c → IsValid c
unfolding from_env faults
from_env-IsValid env c p =
    let (none_of, same) = accepted-nil env (faults env) c p in
    let (service, rest) = nil-append (flatten (service_faults env)) _ none_of in
    let (stellar, rest') = nil-append (flatten (stellar_faults env)) _ rest in
    let (cache, last) = nil-append (flatten (cache_faults env)) _ rest' in
    subst IsValid same (record {
      rates = service_faults-Rates env service;
      stellar = stellar_faults-StellarRanges env stellar last;
      cache = cache_faults-CacheRanges env cache;
      webhook = last_faults-WebhookRanges env last;
    })
