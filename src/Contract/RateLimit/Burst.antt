-- ===== src/Contract/RateLimit/Burst.antt =====
-- src/lib.rs, `check_rate_limit`: the bound on the calls that a bucket admits in a span of time, and
-- the calls that a bucket rejects.
use proof_stell_contract.Base.{
  ℕ, suc, ◌+◌, ◌-◌, ◌*◌, ◌^◌, ◌≤◌, ◌<◌, ◌≡◌, refl, ◌∙◌, ap, sym, subst, inl, inr, some, arith,
  unwrap_or,
}
use proof_stell_contract.Base.Words.{u64_max}
use proof_stell_contract.Contract.Host.{Host, RateLimitScope, RateLimitConfig, RateLimitBucketState}
use proof_stell_contract.Contract.Monad.{Env, ok, err, rate_limit_exceeded}
use proof_stell_contract.Contract.RateLimit.{limits, refilled, check_scope, check_rate_limit}
use proof_stell_contract.Contract.Frames.{bucket, available, rejected, check_scope_cases, IsOk}
use proof_stell_contract.Contract.RateLimit.Quota.{
  config_of, state_of, Counted, Taken, refilled-le-capacity, refilled-le-accrued, refilled_pos,
  refilled_lost, check_rate_limit-Taken,
}

span_split : (s t u rate : ℕ) → s ≤ t → t ≤ u → (u - t) * rate + (t - s) * rate ≡ (u - s) * rate
span_split s t u rate p q = let h : u - s ≡ (u - t) + (t - s) = omega arith in rw h (omega arith)

module _ ⦃host : Host⦄ (config : RateLimitConfig) (scope : RateLimitScope host.Address) where
  open host use {Address}

  abbrev capacity : ℕ
  capacity = (limits config scope).0

  abbrev rate : ℕ
  rate = (limits config scope).1

  -- A call that the limiter admits, for which the bucket of `scope` counts.
  abbrev pub Admits : Env → Env → Type 0
  Admits e g =
      (caller : Address) × (issuer : Address) × Counted caller issuer scope
      × (config_of e ≡ config)
      × (check_rate_limit caller issuer e ≡ ok tt g)

  -- `n` admitted calls from time `s` to time `t` under one configuration: the clock does not go back,
  -- and between two of the calls nothing writes the bucket.
  pub data Burst : (n s t : ℕ) → Env → Type 0 where
    first :
        {n s t : ℕ} {g : Env} (e : Env)
        → n ≡ 1
        → s ≡ e.timestamp
        → t ≡ e.timestamp
        → Admits e g
        → Burst n s t g
    next :
        {n s t m u : ℕ} {f g : Env} (e : Env)
        → Burst m s u f
        → n ≡ suc m
        → u ≤ e.timestamp
        → state_of scope e ≡ state_of scope f
        → t ≡ e.timestamp
        → Admits e g
        → Burst n s t g

  abbrev Within : ℕ → ℕ → ℕ → Env → Type 0
  Within n s t g =
      (b : RateLimitBucketState) × (state_of scope g ≡ some b)
      × (b.last_refill ≡ t)
      × (s ≤ t)
      × (n + b.tokens ≤ capacity + (t - s) * rate)

  Admits-Taken : (e g : Env) → Admits e g → Taken config scope e g
  Admits-Taken e g (c, i, counted, same, p) =
      subst (λ x. Taken x scope e g) same (check_rate_limit-Taken c i scope e p counted)

  first-Within :
      (n s t : ℕ) (e g : Env)
      → n ≡ 1
      → s ≡ e.timestamp
      → t ≡ e.timestamp
      → Admits e g
      → Within n s t g
  first-Within n s t e g pn ps pt a =
      let (h, q) = Admits-Taken e g a in
      let now = e.timestamp in
      (
        _,
        q,
        sym pt,
        omega arith,
        omega (arith, refilled-le-capacity capacity rate now (bucket config now scope e)),
      )

  next-Within :
      (n s u : ℕ) (e f g : Env)
      → Within n s u f
      → u ≤ e.timestamp
      → state_of scope e ≡ state_of scope f
      → Admits e g
      → Within (suc n) s e.timestamp g
  next-Within n s u e f g (b, found, last, early, bound) later same a =
      let (h, q) = Admits-Taken e g a in
      let now = e.timestamp in
      let here : bucket config now scope e ≡ b =
        ap (λ o. unwrap_or o (record { tokens = capacity; last_refill = now })) (same ∙ found) in
      let accrued : available config now scope e ≤ b.tokens + (now - u) * rate =
        subst (λ x. available config now scope e ≤ b.tokens + (now - x) * rate) last
          (subst (λ x. refilled capacity rate now x ≤ b.tokens + (now - b.last_refill) * rate)
            (sym here) (refilled-le-accrued capacity rate now b)) in
      (_, q, refl, omega arith, omega (arith, span_split s u now rate early later))

  Burst-Within : {n s t : ℕ} {g : Env} → Burst n s t g → Within n s t g
  Burst-Within (first e pn ps pt a) = first-Within _ _ _ e _ pn ps pt a
  Burst-Within (next {n} {s} {t} {m} {u} {f} {g} e r pn later same pt a) =
      rw (pn, pt) (next-Within m s u e f g (Burst-Within r) later same a)

  -- Under one configuration a bucket admits, from the time `s` to the time `t`, at most its capacity
  -- and the refill of the seconds between, as long as the clock does not go back and between two of the
  -- calls nothing else writes the bucket.
  pub Burst-bound : {n s t : ℕ} {g : Env} → Burst n s t g → n ≤ capacity + (t - s) * rate
  Burst-bound r = let (_, _, _, _, h) = Burst-Within r in omega arith

module _ ⦃host : Host⦄ (config : RateLimitConfig) (now : ℕ) (scope : RateLimitScope host.Address)
    (e : Env) {b : RateLimitBucketState} (found : state_of scope e ≡ some b) where
  available-refilled :
      available config now scope e ≡ refilled (limits config scope).0 (limits config scope).1 now b
  available-refilled =
      ap
        (λ o.
          refilled (limits config scope).0 (limits config scope).1 now
            (unwrap_or o (record { tokens = (limits config scope).0; last_refill = now })))
        found

  -- With a bucket in the store, a round admits a call if the capacity is not 0, a second has passed, some refill is configured and the refill stays below
  -- 2 ^ 32: an exhausted bucket recovers.
  pub check_scope-recovers :
      0 < (limits config scope).0
      → 0 < (limits config scope).1
      → b.last_refill < now
      → (now - b.last_refill) * (limits config scope).1 < 2 ^ 32
      → IsOk (check_scope config now scope e)
  check_scope-recovers cap rate late small = elim (check_scope_cases config now scope e) [
    | inl (z, _) ↦
        absurd (omega (arith, available-refilled, refilled_pos _ _ now b cap rate late small))
    | inr (_, q) ↦ rw q tt
  ]

  -- The cast of the refill to `u32` loses it: where the refill fits a `u64` and is a multiple of
  -- 2 ^ 32, a bucket in the store without tokens rejects the call, however long it has waited.
  pub check_scope-starves :
      (k : ℕ)
      → b.tokens ≡ 0
      → (now - b.last_refill) * (limits config scope).1 ≡ k * 2 ^ 32
      → k * 2 ^ 32 ≤ u64_max
      → check_scope config now scope e ≡ err rate_limit_exceeded (rejected config scope e)
  check_scope-starves k empty lost small = elim (check_scope_cases config now scope e) [
    | inl (_, q) ↦ q
    | inr (h, _) ↦ absurd (
        omega (
          arith,
          available-refilled,
          refilled_lost (limits config scope).0 _ now k b empty lost small,
        ))
  ]
