-- ===== src/Limiter/Harmless.antt =====
-- src/rate_limit.rs, `PerIssuerRateLimiter::evict_stale`: the requests after an eviction.
use proof_stell_contract.Base.{
  ℕ, ◌^◌, ◌≤◌, ◌<◌, ◌≡◌, refl, sym, ap, ◌∙◌, inl, inr, Bool, Bool-cases, Option-cases, All, Option,
  if◌then◌else◌, none, some, List, [], ◌∷◌,
}
use proof_stell_contract.Base.Assoc.{find, Unique}
use proof_stell_contract.Limiter.Issuers.{
  Issuer, issuer_eq, RateLimitConfig, RateLimitError, Buckets, Governor, PerIssuerRateLimiter,
  consume_issuer, evict_stale, check, check_issuer, next_token_wait,
}
use proof_stell_contract.Limiter.Alike.{
  AllAlike, Ordinary, Fills, taken, taken-Alike, consume-find_self, consume-granted,
  consume-AllAlike, evict-AllAlike,
}

module _ (governor : Governor) where
  -- The answers to requests, one after the other, each of an issuer and at a time.
  unfoldable pub answers :
      List (Issuer × ℕ) → PerIssuerRateLimiter governor → List (Option RateLimitError)
  answers [] l = []
  answers ((issuer, t) ∷ calls) l =
      (check governor issuer t l).0 ∷ answers calls (check governor issuer t l).1

  -- The limiter with another map of buckets.
  abbrev pub holding : Buckets → PerIssuerRateLimiter governor → PerIssuerRateLimiter governor
  holding buckets l = record l { buckets = buckets }

  abbrev pub InTime : ℕ → List (Issuer × ℕ) → Type 0
  InTime now calls = All (λ call. (now ≤ call.1) × (call.1 < 2 ^ 32)) calls

  wait-find :
      (issuer : Issuer) (t : ℕ) (kept full : Buckets)
      → find issuer_eq issuer kept ≡ find issuer_eq issuer full
      → next_token_wait issuer t kept ≡ next_token_wait issuer t full
  unfolding next_token_wait
  wait-find issuer t kept full p = rw (next_token_wait, p) refl

  answer : Bool → Issuer → ℕ → Option RateLimitError
  answer granted issuer wait =
      if granted then none else some (RateLimitError.issuer_exhausted issuer wait)

  check_issuer-result :
      (issuer : Issuer) (t : ℕ) (l : PerIssuerRateLimiter governor)
      → check_issuer governor issuer t l ≡ (
        answer
            (consume_issuer l.config issuer t l.buckets).0.granted
            issuer
            (next_token_wait issuer t (consume_issuer l.config issuer t l.buckets).1),
        holding (consume_issuer l.config issuer t l.buckets).1 l,
      )
  unfolding check_issuer answer
  check_issuer-result issuer t l =
      elim (Bool-cases (consume_issuer l.config issuer t l.buckets).0.granted) [
        | inl p ↦ rw p refl
        | inr p ↦ rw p refl
      ]

  check-refused :
      (issuer : Issuer) (t : ℕ) (l : PerIssuerRateLimiter governor) {w : ℕ}
      → (governor.check l.global).0 ≡ some w
      → check governor issuer t l ≡ (
        some (RateLimitError.global_exhausted w),
        record l { global = (governor.check l.global).1 },
      )
  unfolding check
  check-refused issuer t l p = rw p refl

  check-passed :
      (issuer : Issuer) (t : ℕ) (l : PerIssuerRateLimiter governor)
      → (governor.check l.global).0 ≡ none
      → check governor issuer t l
        ≡ check_issuer governor issuer t (record l { global = (governor.check l.global).1 })
  unfolding check
  check-passed issuer t l p = rw p refl

  answers-alike :
      (config : RateLimitConfig) (now : ℕ) (calls : List (Issuer × ℕ)) (g : governor.Cells)
      (kept full : Buckets)
      → Fills config now
      → InTime now calls
      → AllAlike config now kept full
      → answers calls (record { global = g; buckets = kept; config = config })
        ≡ answers calls (record { global = g; buckets = full; config = config })
  unfolding answers
  answers-alike config now [] g kept full fills _ alike = refl
  answers-alike config now ((issuer, t) ∷ calls) g kept full fills ((later, small), rest) alike =
      elim (Option-cases (governor.check g).0) [
        | inr (w, p) ↦
            rw (check-refused issuer t (limiter kept) p, check-refused issuer t (limiter full) p)
              (ap
                (λ (later_ones : List (Option RateLimitError)).
                  some (RateLimitError.global_exhausted w) ∷ later_ones)
                (answers-alike config now calls (governor.check g).1 kept full fills rest alike))
        | inl p ↦
            let buckets : Buckets → Buckets = λ b. (consume_issuer config issuer t b).1 in
            let found =
              consume-find_self config now fills t later small issuer kept
              ∙ ap (λ x. some (x.0, x.1.1)) agreed
              ∙ sym (consume-find_self config now fills t later small issuer full) in
            let granted =
              consume-granted config now fills t later small issuer kept
              ∙ ap (λ x. x.1.0) agreed
              ∙ sym (consume-granted config now fills t later small issuer full) in
            let waits = wait-find issuer t (buckets kept) (buckets full) found in
            let rest_of =
              answers-alike config now calls (governor.check g).1 (buckets kept) (buckets full)
                fills rest
                (consume-AllAlike config now fills t later small issuer kept full alike) in
            rw (result kept p, result full p) (cc (granted, waits, rest_of))
      ]
    where
      limiter : Buckets → PerIssuerRateLimiter governor
      limiter buckets = record { global = g; buckets = buckets; config = config }

      agreed : taken config now issuer t kept ≡ taken config now issuer t full
      agreed = taken-Alike config now fills t later small issuer kept full (alike issuer)

      result :
          (buckets : Buckets)
          → (governor.check g).0 ≡ none
          → check governor issuer t (limiter buckets) ≡ (
            answer
                (consume_issuer config issuer t buckets).0.granted
                issuer
                (next_token_wait issuer t (consume_issuer config issuer t buckets).1),
            record {
              global = (governor.check g).1;
              buckets = (consume_issuer config issuer t buckets).1;
              config = config;
            },
          )
      result buckets p = check-passed issuer t (limiter buckets) p ∙ check_issuer-result issuer t _

  -- Evicting the stale buckets changes no answer, to any sequence of requests at the time of the eviction
  -- or later, of any issuers, with the waits that the refusals report. It is assumed that no issuer has
  -- two buckets, that they have the configured quota and no more tokens than it allows, that none was
  -- last used after the eviction, that a bucket fills up in the time after which it is stale, and
  -- that the clock stays below 2 ^ 32.
  pub evict_stale-harmless :
      (now : ℕ) (l : PerIssuerRateLimiter governor) (calls : List (Issuer × ℕ))
      → Unique issuer_eq l.buckets
      → Ordinary l.config now l.buckets
      → Fills l.config now
      → now < 2 ^ 32
      → InTime now calls
      → answers calls (holding (evict_stale l.config now l.buckets) l) ≡ answers calls l
  evict_stale-harmless now l calls u ordinary fills small timely =
      answers-alike l.config now calls l.global _ l.buckets fills timely
        (evict-AllAlike l.config now l.buckets u ordinary small)
