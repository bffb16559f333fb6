-- ===== src/Limiter/Alike.antt =====
-- src/rate_limit.rs, `PerIssuerRateLimiter`: two maps of buckets between which no request can tell.
use proof_stell_contract.Base.{
  ℕ, ◌-◌, ◌*◌, ◌^◌, leb, ◌≤◌, ◌<◌, ◌≡◌, ◌≢◌, refl, sym, ap, subst, ◌∙◌, inl, inr, arith, Bool,
  Option-cases, if◌then◌else◌, none, some,
}
use proof_stell_contract.Base.Assoc.{find, find-insert_self, find-insert_ne, Unique}
use proof_stell_contract.Limiter.Bucket.{milli, pack, new, Quota, try_consume}
use proof_stell_contract.Limiter.Level.{Sane, level, left, report, try_consume-report}
use proof_stell_contract.Limiter.Issuers.{
  Issuer, issuer_eq, RateLimitConfig, Buckets, new_bucket, bucket_of, consume_issuer, evict_stale,
}
use proof_stell_contract.Limiter.Eviction.{
  new_bucket-word, new_bucket-Sane, last_seen-pack, full_level, capped_level, find-evict,
  evict-absent,
}

-- What a request leaves of its bucket: whether it was granted, and the word.
spent : Quota → ℕ → ℕ → Bool × ℕ
spent b now word = ((try_consume b now word).0.granted, (try_consume b now word).1)

-- A level decides what a request leaves.
spent-level :
    (b : Quota) (now last tokens n : ℕ)
    → Sane b
    → now < 2 ^ 32
    → last < 2 ^ 32
    → tokens ≤ b.capacity_milli
    → level b now last tokens ≡ n
    → spent b now (pack last tokens)
      ≡ (leb milli n, pack now (if leb milli n then n - milli else n))
unfolding spent report left
spent-level b now last tokens n s small old le p =
    rw (try_consume-report b now last tokens s small old le, p) refl

module _ (config : RateLimitConfig) (now : ℕ) where
  -- A bucket that stays, or one that is full by the time of the eviction and goes.
  pub data Alike (issuer : Issuer) (kept full : Buckets) : Type 0 where
    same : find issuer_eq issuer kept ≡ find issuer_eq issuer full → Alike issuer kept full
    gone :
        (last tokens : ℕ)
        → find issuer_eq issuer kept ≡ none
        → find issuer_eq issuer full ≡ some ((new_bucket config issuer now).0, pack last tokens)
        → last < 2 ^ 32
        → tokens ≤ (new_bucket config issuer now).0.capacity_milli
        → config.issuer_ttl_seconds ≤ now - last
        → Alike issuer kept full

  quota-now :
      (issuer : Issuer) (t : ℕ) → (new_bucket config issuer t).0 ≡ (new_bucket config issuer now).0
  unfolding new_bucket new
  quota-now issuer t = refl

  -- Every issuer's bucket is alike in both maps.
  abbrev pub AllAlike : Buckets → Buckets → Type 0
  AllAlike kept full = (issuer : Issuer) → Alike issuer kept full

  -- A bucket fills up in the time after which it is stale.
  abbrev pub Fills : Type 0
  Fills =
      (issuer : Issuer)
      → (new_bucket config issuer now).0.capacity_milli
        ≤ config.issuer_ttl_seconds * (new_bucket config issuer now).0.refill_milli_per_sec

  -- A bucket has the configured quota and no more tokens than it can hold, and was used before `now`.
  abbrev pub Ordinary : Buckets → Type 0
  Ordinary buckets =
      (issuer : Issuer) (b : Quota × ℕ)
      → find issuer_eq issuer buckets ≡ some b
      → (last tokens : ℕ) × (b ≡ ((new_bucket config issuer now).0, pack last tokens))
        × (last ≤ now)
        × (tokens ≤ (new_bucket config issuer now).0.capacity_milli)

  -- What a request spends, and the bucket that it spends from.
  pub taken : Issuer → ℕ → Buckets → Quota × (Bool × ℕ)
  taken issuer t buckets = let b = bucket_of config issuer t buckets in (b.0, spent b.0 t b.1)

  taken-found :
      (issuer : Issuer) (t : ℕ) (buckets : Buckets) {b : Quota × ℕ}
      → find issuer_eq issuer buckets ≡ some b
      → taken issuer t buckets ≡ (b.0, spent b.0 t b.1)
  unfolding taken bucket_of
  taken-found issuer t buckets p = rw p refl

  taken-absent :
      (issuer : Issuer) (t : ℕ) (buckets : Buckets)
      → find issuer_eq issuer buckets ≡ none
      → taken issuer t buckets ≡ (
        (new_bucket config issuer t).0,
        spent (new_bucket config issuer t).0 t (new_bucket config issuer t).1,
      )
  unfolding taken bucket_of
  taken-absent issuer t buckets p = rw p refl

  taken-find :
      (issuer : Issuer) (t : ℕ) (kept full : Buckets)
      → find issuer_eq issuer kept ≡ find issuer_eq issuer full
      → taken issuer t kept ≡ taken issuer t full
  unfolding taken bucket_of
  taken-find issuer t kept full p = rw p refl

  module _ (fills : Fills) (t : ℕ) (later : now ≤ t) (small : t < 2 ^ 32) where
    taken-new :
        (issuer : Issuer) (buckets : Buckets)
        → find issuer_eq issuer buckets ≡ none
        → taken issuer t buckets ≡ (
          (new_bucket config issuer now).0,
          spent
              (new_bucket config issuer now).0
              t
              (pack t (new_bucket config issuer now).0.capacity_milli),
        )
    taken-new issuer buckets p =
        taken-absent issuer t buckets p
        ∙ ap (λ (w : ℕ). ((new_bucket config issuer t).0, spent (new_bucket config issuer t).0 t w))
            (new_bucket-word config issuer t small)
        ∙ ap (λ (q : Quota). (q, spent q t (pack t q.capacity_milli))) (quota-now issuer t)

    pub taken-Alike :
        (issuer : Issuer) (kept full : Buckets)
        → Alike issuer kept full
        → taken issuer t kept ≡ taken issuer t full
    taken-Alike issuer kept full (same p) = taken-find issuer t kept full p
    taken-Alike issuer kept full (gone last tokens absent found old le stale) =
        let q : Quota = (new_bucket config issuer now).0 in
        let s : Sane q = new_bucket-Sane config issuer now in
        let c : ℕ = q.capacity_milli in
        let new_one = spent-level q t t c c s small small (omega arith) (capped_level q t t) in
        let old_one =
          spent-level q t last tokens c s small old le
            (full_level q t last tokens config.issuer_ttl_seconds (fills issuer) (omega arith)) in
        taken-new issuer kept absent
        ∙ ap (λ x. (q, x)) (new_one ∙ sym old_one)
        ∙ sym (taken-found issuer t full found)

    -- After a request both maps have the same bucket for its issuer.
    pub consume-find_self :
        (issuer : Issuer) (buckets : Buckets)
        → find issuer_eq issuer (consume_issuer config issuer t buckets).1
          ≡ some ((taken issuer t buckets).0, (taken issuer t buckets).1.1)
    unfolding consume_issuer taken spent
    consume-find_self issuer buckets = find-insert_self issuer_eq issuer _ buckets

    pub consume-granted :
        (issuer : Issuer) (buckets : Buckets)
        → (consume_issuer config issuer t buckets).0.granted ≡ (taken issuer t buckets).1.0
    unfolding consume_issuer taken spent
    consume-granted issuer buckets = refl

    consume-find_ne :
        (issuer other : Issuer) (buckets : Buckets)
        → other ≢ issuer
        → find issuer_eq other (consume_issuer config issuer t buckets).1
          ≡ find issuer_eq other buckets
    unfolding consume_issuer
    consume-find_ne issuer other buckets n = find-insert_ne issuer_eq other issuer _ buckets n

    Alike-same :
        (issuer : Issuer) (kept full kept' full' : Buckets)
        → find issuer_eq issuer kept' ≡ find issuer_eq issuer kept
        → find issuer_eq issuer full' ≡ find issuer_eq issuer full
        → Alike issuer kept full
        → Alike issuer kept' full'
    Alike-same issuer kept full kept' full' p q (same r) = same (p ∙ r ∙ sym q)
    Alike-same issuer kept full kept' full' p q (gone last tokens a f old le stale) =
        gone last tokens (p ∙ a) (q ∙ f) old le stale

    pub consume-AllAlike :
        (issuer : Issuer) (kept full : Buckets)
        → AllAlike kept full
        → AllAlike (consume_issuer config issuer t kept).1 (consume_issuer config issuer t full).1
    consume-AllAlike issuer kept full alike other = elim (issuer_eq other issuer) [
      | no n ↦
          Alike-same other kept full _ _ (consume-find_ne issuer other kept n)
            (consume-find_ne issuer other full n) (alike other)
      | yes p ↦
          subst
            (λ i.
              Alike i (consume_issuer config issuer t kept).1
                (consume_issuer config issuer t full).1)
            (sym p)
            (same (
              consume-find_self issuer kept
              ∙ ap (λ x. some (x.0, x.1.1)) (taken-Alike issuer kept full (alike issuer))
              ∙ sym (consume-find_self issuer full)))
    ]

  pub evict-AllAlike :
      (buckets : Buckets)
      → Unique issuer_eq buckets
      → Ordinary buckets
      → now < 2 ^ 32
      → AllAlike (evict_stale config now buckets) buckets
  evict-AllAlike buckets u ordinary small issuer =
      elim (Option-cases (find issuer_eq issuer buckets)) [
        | inl p ↦ same (evict-absent config now issuer buckets p ∙ sym p)
        | inr (b, p) ↦
            let (last, tokens, q, old, le) = ordinary issuer b p in
            let found : find issuer_eq issuer buckets
                ≡ some ((new_bucket config issuer now).0, pack last tokens) =
              p ∙ ap some q in
            elim (find-evict config now issuer buckets _ _ u found) [
              | inl r ↦ same (r ∙ sym found)
              | inr (r, late) ↦
                  let s : Sane (new_bucket config issuer now).0 =
                    new_bucket-Sane config issuer now in
                  let seen = last_seen-pack _ last tokens s (omega arith) le in
                  gone last tokens r found (omega arith) le (omega arith)
            ]
      ]
