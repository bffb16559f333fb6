-- ===== src/Limiter/Issuers.antt =====
-- src/rate_limit.rs, `PerIssuerRateLimiter`: the two tiers and the map of buckets.
use proof_stell_contract.Base.{
  ℕ, ◌+◌, leb, max, if◌then◌else◌, Bool, true, false, Option, none, some, List, [], ◌∷◌, ℕ_discrete,
  list_eq, length, unwrap_or,
}
use proof_stell_contract.Base.Words.{saturating_sub}
use proof_stell_contract.Base.Assoc.{find, insert}
use proof_stell_contract.Limiter.Bucket.{
  Quota, ConsumeOutcome, new, try_consume, snapshot, time_to_next_token, last_seen,
  deterministic_jitter,
}

-- The bytes of an issuer's name.
abbrev pub Issuer : Type 0
Issuer = List ℕ

unfoldable pub issuer_eq : Discrete Issuer
issuer_eq = list_eq ℕ_discrete

pub record RateLimitConfig : Type 0 where
  pub global_per_second : ℕ
  pub global_burst : ℕ
  pub per_issuer_per_second : ℕ
  pub per_issuer_burst : ℕ
  pub issuer_ttl_seconds : ℕ
  pub jitter_seconds : ℕ

abbrev pub default_config : RateLimitConfig
default_config = record {
  global_per_second = 100;
  global_burst = 200;
  per_issuer_per_second = 10;
  per_issuer_burst = 20;
  issuer_ttl_seconds = 3600;
  jitter_seconds = 0;
}

pub data RateLimitError : Type 0 where
  global_exhausted : ℕ → RateLimitError
  issuer_exhausted : Issuer → ℕ → RateLimitError

unfoldable pub retry_after_secs : RateLimitError → ℕ
retry_after_secs (RateLimitError.global_exhausted secs) = max secs 1
retry_after_secs (RateLimitError.issuer_exhausted _ secs) = max secs 1

pub record RateLimitStatus : Type 0 where
  pub issuer : Issuer
  pub remaining : ℕ
  pub reset_at : ℕ
  pub global_throttled : Bool

-- The global limiter, of the crate `governor`: a check spends a cell, or fails with a wait in seconds.
pub record Governor : Type 1 where
  pub Cells : Type 0
  pub check : Cells → Option ℕ × Cells

abbrev pub Buckets : Type 0
Buckets = List (Issuer × (Quota × ℕ))

unfoldable pub new_bucket : RateLimitConfig → Issuer → ℕ → Quota × ℕ
new_bucket config issuer now =
    new config.per_issuer_burst config.per_issuer_per_second config.jitter_seconds issuer now

-- The bucket of an issuer, a new one if it has none.
unfoldable pub bucket_of : RateLimitConfig → Issuer → ℕ → Buckets → Quota × ℕ
bucket_of config issuer now buckets =
    unwrap_or (find issuer_eq issuer buckets) (new_bucket config issuer now)

unfoldable pub consume_issuer : RateLimitConfig → Issuer → ℕ → Buckets → ConsumeOutcome × Buckets
consume_issuer config issuer now buckets =
    let b = bucket_of config issuer now buckets in
    let (o, word) = try_consume b.0 now b.1 in (o, insert issuer_eq issuer (b.0, word) buckets)

unfoldable pub next_token_wait : Issuer → ℕ → Buckets → ℕ
next_token_wait issuer now buckets = elim (find issuer_eq issuer buckets) [
  | some b ↦ max (time_to_next_token b.0 now b.1) 1
  | none ↦ 1
]

unfoldable pub evict_stale : RateLimitConfig → ℕ → Buckets → Buckets
evict_stale config now [] = []
evict_stale config now ((i, (b, word)) ∷ rest) =
    let kept = evict_stale config now rest in
    if leb (saturating_sub now config.issuer_ttl_seconds) (last_seen word)
    then (i, (b, word)) ∷ kept
    else kept

abbrev pub tracked_issuers : Buckets → ℕ
tracked_issuers buckets = length buckets

module _ (governor : Governor) where
  pub record PerIssuerRateLimiter : Type 0 where
    pub global : governor.Cells
    pub buckets : Buckets
    pub config : RateLimitConfig

  -- The outcome of `check`: `none` for `Ok(())`.
  unfoldable pub check_issuer :
      Issuer → ℕ → PerIssuerRateLimiter → Option RateLimitError × PerIssuerRateLimiter
  check_issuer issuer now l =
      let (o, buckets) = consume_issuer l.config issuer now l.buckets in
      let l' : PerIssuerRateLimiter = record l { buckets = buckets } in
      if o.granted
      then (none, l')
      else (some (RateLimitError.issuer_exhausted issuer (next_token_wait issuer now buckets)), l')

  -- What follows the answer of the global tier.
  abbrev after_global :
      Option ℕ → Issuer → ℕ → PerIssuerRateLimiter → Option RateLimitError × PerIssuerRateLimiter
  after_global (some wait) issuer now l = (some (RateLimitError.global_exhausted wait), l)
  after_global none issuer now l = check_issuer issuer now l

  unfoldable pub check :
      Issuer → ℕ → PerIssuerRateLimiter → Option RateLimitError × PerIssuerRateLimiter
  check issuer now l =
      let (refused, global) = governor.check l.global in
      after_global refused issuer now (record l { global = global })

  unfoldable pub status : Issuer → ℕ → PerIssuerRateLimiter → RateLimitStatus × PerIssuerRateLimiter
  status issuer now l =
      let (refused, global) = governor.check l.global in
      let (remaining, reset_at) = view l in
      (
        record {
          issuer = issuer;
          remaining = remaining;
          reset_at = reset_at;
          global_throttled = elim refused [ some _ ↦ true | none ↦ false ];
        },
        record l { global = global },
      )
    where
      view : PerIssuerRateLimiter → ℕ × ℕ
      view l = elim (find issuer_eq issuer l.buckets) [
        | some b ↦ snapshot b.0 now b.1
        | none ↦
            (l.config.per_issuer_burst, now + deterministic_jitter issuer l.config.jitter_seconds)
      ]
