-- ===== src/Contract/RateLimit/Quota.antt =====
-- src/lib.rs, `check_rate_limit`: how many calls a bucket admits.
use proof_stell_contract.Base.{
  ℕ, ◌+◌, ◌-◌, ◌*◌, ◌^◌, ◌≤◌, ◌<◌, subst, ◌≡◌, ◌≢◌, ◌∙◌, ap, sym, ◌⊎◌, inl, inr, Option, some,
  arith, unwrap_or,
}
use proof_stell_contract.Base.Words.{u64_max}
use proof_stell_contract.Contract.Host.{
  Host, DataKey, RateLimitScope, RateLimitConfig, RateLimitBucketState,
}
use proof_stell_contract.Contract.Monad.{Env, ok}
use proof_stell_contract.Contract.RateLimit.{
  default_config, refilled, check_scope, check_rate_limit,
}
use proof_stell_contract.Contract.Frames.{available, consumed, check_scope_cases, bind_run}

pub refilled-le-capacity :
    (capacity rate now : ℕ) (b : RateLimitBucketState) → refilled capacity rate now b ≤ capacity
unfolding refilled
refilled-le-capacity capacity rate now b = omega arith

pub refilled-le-accrued :
    (capacity rate now : ℕ) (b : RateLimitBucketState)
    → refilled capacity rate now b ≤ b.tokens + (now - b.last_refill) * rate
unfolding refilled
refilled-le-accrued capacity rate now b = omega arith

-- A second's refill is a token, where the refill fits a `u32`.
pub refilled_pos :
    (capacity rate now : ℕ) (b : RateLimitBucketState)
    → 0 < capacity
    → 0 < rate
    → b.last_refill < now
    → (now - b.last_refill) * rate < 2 ^ 32
    → 0 < refilled capacity rate now b
unfolding refilled
refilled_pos capacity rate now b c r late small =
    let one : 1 ≤ (now - b.last_refill) * rate = grind arith in omega arith

-- A refill that is a multiple of 2 ^ 32 is lost in the cast.
pub refilled_lost :
    (capacity rate now k : ℕ) (b : RateLimitBucketState)
    → b.tokens ≡ 0
    → (now - b.last_refill) * rate ≡ k * 2 ^ 32
    → k * 2 ^ 32 ≤ u64_max
    → refilled capacity rate now b ≡ 0
unfolding refilled
refilled_lost capacity rate now k b empty lost small = omega arith

module _ ⦃host : Host⦄ where
  open host use {Address, get, set, get-set_self, get-set_ne, get-remove_ne}

  abbrev pub config_of : Env → RateLimitConfig
  config_of e = unwrap_or (get DataKey.rate_limit_config e.store) default_config

  abbrev pub state_of : RateLimitScope Address → Env → Option RateLimitBucketState
  state_of scope e = get (DataKey.rate_limit_state scope) e.store

  abbrev pub Counted : (caller issuer : Address) → RateLimitScope Address → Type 0
  Counted caller issuer scope =
      (scope ≡ RateLimitScope.address caller) ⊎ (scope ≡ RateLimitScope.issuer issuer)

  -- The bucket that a round leaves.
  abbrev pub Taken : RateLimitConfig → RateLimitScope Address → Env → Env → Type 0
  Taken config scope e g =
      (0 < available config e.timestamp scope e)
      × (state_of scope g
          ≡ some (record {
            tokens = available config e.timestamp scope e - 1;
            last_refill = e.timestamp;
          }))

  taken : RateLimitConfig → ℕ → RateLimitScope Address → Env → RateLimitBucketState
  taken config now scope e = record { tokens = available config now scope e - 1; last_refill = now }

  consumed-state :
      (config : RateLimitConfig) (now : ℕ) (scope : RateLimitScope Address) (e : Env)
      → state_of scope (consumed config now scope e) ≡ some (taken config now scope e)
  unfolding taken
  consumed-state config now scope e = ground (
    arith,
    get-remove_ne (DataKey.rate_limit_state scope) (DataKey.rate_limit_retry_after scope)
        (set (DataKey.rate_limit_state scope) (taken config now scope e) e.store),
    get-set_self (DataKey.rate_limit_state scope) (taken config now scope e) e.store,
  )

  consumed-state_ne :
      (config : RateLimitConfig) (now : ℕ) (scope other : RateLimitScope Address) (e : Env)
      → other ≢ scope
      → state_of other (consumed config now scope e) ≡ state_of other e
  unfolding taken
  consumed-state_ne config now scope other e n = ground (
    arith,
    get-remove_ne (DataKey.rate_limit_state other) (DataKey.rate_limit_retry_after scope)
        (set (DataKey.rate_limit_state scope) (taken config now scope e) e.store),
    get-set_ne (DataKey.rate_limit_state other) (DataKey.rate_limit_state scope)
        (taken config now scope e) e.store,
  )

  check_scope_run :
      (config : RateLimitConfig) (now : ℕ) (scope : RateLimitScope Address) (e : Env) {g : Env}
      → check_scope config now scope e ≡ ok tt g
      → (0 < available config now scope e) × (g ≡ consumed config now scope e)
  check_scope_run config now scope e p = elim (check_scope_cases config now scope e) [
    | inl (_, q) ↦ cc (sym p ∙ q)
    | inr (h, q) ↦ (h, cc (sym p ∙ q))
  ]

  -- The two rounds of an admitted call.
  abbrev Rounds : RateLimitConfig → ℕ → (a i : RateLimitScope Address) → Env → Env → Type 0
  Rounds c now a i e g =
      (0 < available c now a e)
      × (0 < available c now i (consumed c now a e))
      × (g ≡ consumed c now i (consumed c now a e))

  check_rate_limit-Rounds :
      (caller issuer : Address) (e : Env) {g : Env}
      → check_rate_limit caller issuer e ≡ ok tt g
      → Rounds
          (config_of e)
          e.timestamp
          (RateLimitScope.address caller)
          (RateLimitScope.issuer issuer)
          e
          g
  unfolding check_rate_limit
  check_rate_limit-Rounds caller issuer e {g} p =
      let a = RateLimitScope.address caller in
      let i = RateLimitScope.issuer issuer in
      let c = config_of e in
      let now = e.timestamp in
      let (_, f, q, t) = bind_run (check_scope c now a e) _ p in
      let (h, qf) = check_scope_run c now a e q in
      let (k, qg) =
        check_scope_run c now i (consumed c now a e) (ap (check_scope c now i) (sym qf) ∙ t) in
      (h, k, qg)

  Rounds-first :
      (c : RateLimitConfig) (now : ℕ) (a i : RateLimitScope Address) (e g : Env)
      → a ≢ i
      → Rounds c now a i e g
      → (0 < available c now a e) × (state_of a g ≡ some (taken c now a e))
  Rounds-first c now a i e g n (h, _, q) = (
    h,
    ap (state_of a) q
        ∙ consumed-state_ne c now i a (consumed c now a e) n
        ∙ consumed-state c now a e,
  )

  Rounds-second :
      (c : RateLimitConfig) (now : ℕ) (a i : RateLimitScope Address) (e g : Env)
      → i ≢ a
      → Rounds c now a i e g
      → (0 < available c now i e) × (state_of i g ≡ some (taken c now i e))
  unfolding taken
  Rounds-second c now a i e g n (_, k, q) =
      let same = consumed-state_ne c now a i e n in
      (
        ground (arith, k, same),
        ap (state_of i) q ∙ consumed-state c now i (consumed c now a e) ∙ ground (arith, same),
      )

  -- An admitted call takes one token from each of its two buckets.
  pub check_rate_limit-Taken :
      (caller issuer : Address) (scope : RateLimitScope Address) (e : Env) {g : Env}
      → check_rate_limit caller issuer e ≡ ok tt g
      → Counted caller issuer scope
      → Taken (config_of e) scope e g
  unfolding taken
  check_rate_limit-Taken caller issuer scope e {g} p (inl s) =
      subst (λ x. Taken (config_of e) x e g) (sym s)
        (Rounds-first (config_of e) e.timestamp _ _ e g (λ q. cc q)
          (check_rate_limit-Rounds caller issuer e p))
  check_rate_limit-Taken caller issuer scope e {g} p (inr s) =
      subst (λ x. Taken (config_of e) x e g) (sym s)
        (Rounds-second (config_of e) e.timestamp _ _ e g (λ q. cc q)
          (check_rate_limit-Rounds caller issuer e p))
