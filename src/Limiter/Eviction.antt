-- ===== src/Limiter/Eviction.antt =====
-- src/rate_limit.rs, `PerIssuerRateLimiter`: what one issuer's calls and the eviction of stale buckets
-- do to the others, and when a request is accepted.
use mathlib.Core.Option.{some-injective}
use native.Mathlib.Nat.{mul-le-mul_right}
use proof_stell_contract.Base.{
  ℕ, ◌-◌, ◌*◌, ◌%◌, ◌^◌, leb, ◌≤◌, ◌<◌, ◌≡◌, ◌≢◌, ◌↔◌, refl, sym, ap, subst, ◌∙◌, ◌⊎◌, inl, inr,
  arith, le→leb, true, Bool-cases, Option-cases, none, some, [], ◌∷◌,
}
use proof_stell_contract.Base.Assoc.{find, find-hit, find-miss, find-insert_ne, Unique}
use proof_stell_contract.Limiter.Bucket.{pack, Quota, new, last_seen}
use proof_stell_contract.Limiter.Level.{Sane, new-Sane, unpack-pack, level}
use proof_stell_contract.Limiter.Issuers.{
  Issuer, issuer_eq, RateLimitConfig, Buckets, Governor, PerIssuerRateLimiter, new_bucket,
  consume_issuer, evict_stale, check, check_issuer,
}

-- A request of one issuer leaves the bucket of every other as it is, whatever the two tiers answer.
pub check-find_ne :
    (governor : Governor) (issuer other : Issuer) (now : ℕ) (l : PerIssuerRateLimiter governor)
    → other ≢ issuer
    → find issuer_eq other (check governor issuer now l).1.buckets ≡ find issuer_eq other l.buckets
unfolding check check_issuer consume_issuer
check-find_ne governor issuer other now l n =
    let kept = find-insert_ne issuer_eq other issuer _ l.buckets n in
    elim (Option-cases (governor.check l.global).0) [
      | inr (w, p) ↦ rw p refl
      | inl p ↦ elim (Bool-cases (consume_issuer l.config issuer now l.buckets).0.granted) [
        | inl q ↦ rw (p, q) kept
        | inr q ↦ rw (p, q) kept
      ]
    ]

-- A request is accepted exactly when the global tier accepts it and the issuer's bucket, a new one if
-- it has none, grants a token.
pub check-accepts_iff :
    (governor : Governor) (issuer : Issuer) (now : ℕ) (l : PerIssuerRateLimiter governor)
    → ((check governor issuer now l).0 ≡ none) ↔ (
        ((governor.check l.global).0 ≡ none)
        × ((consume_issuer l.config issuer now l.buckets).0.granted ≡ true))
unfolding check check_issuer
check-accepts_iff governor issuer now l = elim (Option-cases (governor.check l.global).0) [
  | inr (w, p) ↦ rw p ((λ z. cc z), λ z. cc z.0)
  | inl p ↦ elim (Bool-cases (consume_issuer l.config issuer now l.buckets).0.granted) [
    | inl q ↦ rw (p, q) ((λ z. (refl, refl)), λ z. refl)
    | inr q ↦ rw (p, q) ((λ z. cc z), λ z. cc z.1)
  ]
]

find-nil : (issuer : Issuer) {b : Quota × ℕ} → find issuer_eq issuer [] ≢ some b
unfolding find
find-nil issuer p = cc p

pub evict-absent :
    (config : RateLimitConfig) (now : ℕ) (issuer : Issuer) (buckets : Buckets)
    → find issuer_eq issuer buckets ≡ none
    → find issuer_eq issuer (evict_stale config now buckets) ≡ none
unfolding evict_stale
evict-absent config now issuer [] p = p
evict-absent config now issuer ((i, (c, w)) ∷ rest) p = elim (issuer_eq issuer i) [
  | yes e ↦ absurd (cc (sym (find-hit issuer_eq issuer i (c, w) rest e) ∙ p))
  | no n ↦
      let rest_of =
        evict-absent config now issuer rest
          (sym (find-miss issuer_eq issuer i (c, w) rest n) ∙ p) in
      elim (Bool-cases (leb (now - config.issuer_ttl_seconds) (last_seen w))) [
        | inl q ↦
            rw (q, find-miss issuer_eq issuer i (c, w) (evict_stale config now rest) n) rest_of
        | inr q ↦ rw q rest_of
      ]
]

pub find-evict :
    (config : RateLimitConfig) (now : ℕ) (issuer : Issuer) (buckets : Buckets) (b : Quota)
    (word : ℕ)
    → Unique issuer_eq buckets
    → find issuer_eq issuer buckets ≡ some (b, word)
    → (find issuer_eq issuer (evict_stale config now buckets) ≡ some (b, word))
      ⊎ ((find issuer_eq issuer (evict_stale config now buckets) ≡ none)
          × (last_seen word < now - config.issuer_ttl_seconds))
unfolding evict_stale Unique
find-evict config now issuer [] b word u p = absurd (find-nil issuer p)
find-evict config now issuer ((i, (c, w)) ∷ rest) b word (fresh, u) p = elim (issuer_eq issuer i) [
  | yes e ↦ elim (Bool-cases (leb (now - config.issuer_ttl_seconds) (last_seen w))) [
    | inl q ↦
        rw q (inl (find-hit issuer_eq issuer i _ _ e ∙ sym (find-hit issuer_eq issuer i _ _ e) ∙ p))
    | inr q ↦ rw q (
        inr (
          evict-absent config now issuer rest
              (subst (λ k. find issuer_eq k rest ≡ none) (sym e) fresh),
          let same : w ≡ word =
                ap (λ x. x.1)
                  (some-injective _ _ (sym (find-hit issuer_eq issuer i (c, w) rest e) ∙ p)) in
              let h : ¬ (now - config.issuer_ttl_seconds ≤ last_seen w) =
                λ z. cc (sym q ∙ le→leb _ _ z) in
              subst (λ x. last_seen x < now - config.issuer_ttl_seconds) same (omega arith),
        ))
  ]
  | no n ↦
      let rest_of =
        find-evict config now issuer rest b word u (sym (find-miss issuer_eq issuer i _ _ n) ∙ p) in
      elim (Bool-cases (leb (now - config.issuer_ttl_seconds) (last_seen w))) [
        | inl q ↦
            rw (q, find-miss issuer_eq issuer i (c, w) (evict_stale config now rest) n) rest_of
        | inr q ↦ rw q rest_of
      ]
]

module _ (config : RateLimitConfig) (issuer : Issuer) (now : ℕ) where
  pub new_bucket-word :
      now < 2 ^ 32
      → (new_bucket config issuer now).1 ≡ pack now (new_bucket config issuer now).0.capacity_milli
  unfolding new_bucket new
  new_bucket-word small = let h : now % 2 ^ 32 ≡ now = omega arith in rw h refl

  pub new_bucket-Sane : Sane (new_bucket config issuer now).0
  unfolding new_bucket
  new_bucket-Sane = new-Sane _ _ _ issuer now

pub last_seen-pack :
    (b : Quota) (last tokens : ℕ)
    → Sane b
    → last < 2 ^ 32
    → tokens ≤ b.capacity_milli
    → last_seen (pack last tokens) ≡ last
unfolding last_seen
last_seen-pack b last tokens s old le =
    let c = s.capacity_high in ap (λ x. x.0) (unpack-pack last tokens old (omega arith))

pub full_level :
    (b : Quota) (now last tokens ttl : ℕ)
    → b.capacity_milli ≤ ttl * b.refill_milli_per_sec
    → ttl ≤ now - last
    → level b now last tokens ≡ b.capacity_milli
unfolding level
full_level b now last tokens ttl full late =
    let h = mul-le-mul_right b.refill_milli_per_sec late in omega arith

pub capped_level : (b : Quota) (now last : ℕ) → level b now last b.capacity_milli ≡ b.capacity_milli
unfolding level
capped_level b now last = omega arith
