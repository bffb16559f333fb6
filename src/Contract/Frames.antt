-- ===== src/Contract/Frames.antt =====
-- What the calls of lib.rs leave alone: lemmas on the store, and on the rate limiter's writes.
use proof_stell_contract.Base.{
  ℕ, Bool, true, false, ◌≡◌, refl, ap, subst, ◌∙◌, none, some, arith, unwrap_or, if◌then◌else◌, ◌-◌,
  ◌<◌, ◌⊎◌, inl, inr, Bool-cases, ◌==◌,
}
use proof_stell_contract.Contract.Host.{
  Host, DataKey, Value, RateLimitScope, RateLimitConfig, RateLimitBucketState,
}
use proof_stell_contract.Contract.Monad.{
  Env, Outcome, ok, err, trap, ContractError, Key, rate_limit_exceeded, require_auth, trap_unless,
  fail_if, load_or, ◌>>◌,
}
use proof_stell_contract.Contract.RateLimit.{
  limits, retry_after, refilled, check_scope, check_rate_limit,
}

-- The keys that belong to the rate limiter's buckets.
abbrev pub is_bucket_key : {Address Hash Symbol : Type 0} → DataKey Address Hash Symbol → Bool
is_bucket_key (DataKey.rate_limit_state _) = true
is_bucket_key (DataKey.rate_limit_retry_after _) = true
is_bucket_key _ = false

module _ ⦃host : Host⦄ where
  open host use {Address, Hash, Symbol, get, set, remove, get-set_ne, get-remove_ne}

  -- Two environments that differ in buckets at most.
  pub record SameBut (e e' : Env) : Type 0 where
    pub kept : (k : Key) → is_bucket_key k ≡ false → get k e'.store ≡ get k e.store
    pub events : e'.events ≡ e.events
    pub upgrades : e'.upgrades ≡ e.upgrades
    pub timestamp : e'.timestamp ≡ e.timestamp
    pub authorized : e'.authorized ≡ e.authorized

  pub SameBut-refl : (e : Env) → SameBut e e
  SameBut-refl e = record {
    kept = λ k h. refl;
    events = refl;
    upgrades = refl;
    timestamp = refl;
    authorized = refl;
  }

  pub SameBut-trans : {e f g : Env} → SameBut e f → SameBut f g → SameBut e g
  SameBut-trans p q = record {
    kept = λ k h. q.kept k h ∙ p.kept k h;
    events = q.events ∙ p.events;
    upgrades = q.upgrades ∙ p.upgrades;
    timestamp = q.timestamp ∙ p.timestamp;
    authorized = q.authorized ∙ p.authorized;
  }

  pub SameBut-set :
      (e : Env) (k : Key) (v : Value k)
      → is_bucket_key k ≡ true
      → SameBut e (record e { store = set k v e.store })
  SameBut-set e k v b = record {
    kept = λ j h. get-set_ne j k v e.store (λ (q : j ≡ k). cc q);
    events = refl;
    upgrades = refl;
    timestamp = refl;
    authorized = refl;
  }

  pub SameBut-remove :
      (e : Env) (k : Key)
      → is_bucket_key k ≡ true
      → SameBut e (record e { store = remove k e.store })
  SameBut-remove e k b = record {
    kept = λ j h. get-remove_ne j k e.store (λ (q : j ≡ k). cc q);
    events = refl;
    upgrades = refl;
    timestamp = refl;
    authorized = refl;
  }

  -- What an outcome leaves behind, whether it succeeds or fails.
  abbrev pub Leaves : {A : Type 0} → Env → Outcome A → Type 0
  Leaves e (ok a e') = SameBut e e'
  Leaves e (err x e') = SameBut e e'
  Leaves e trap = ⊥

  pub Leaves-trans :
      {A : Type 0} (e e' : Env) (m : Outcome A) → SameBut e e' → Leaves e' m → Leaves e m
  Leaves-trans e e' (ok a f) p q = SameBut-trans p q
  Leaves-trans e e' (err x f) p q = SameBut-trans p q
  Leaves-trans e e' trap p q = q

  -- The bucket that a round of the rate limiter reads: full if there is none.
  abbrev pub bucket : RateLimitConfig → ℕ → RateLimitScope Address → Env → RateLimitBucketState
  bucket config now scope e =
      unwrap_or (get (DataKey.rate_limit_state scope) e.store)
        (record { tokens = (limits config scope).0; last_refill = now })

  abbrev pub available : RateLimitConfig → ℕ → RateLimitScope Address → Env → ℕ
  available config now scope e =
      refilled (limits config scope).0 (limits config scope).1 now (bucket config now scope e)

  abbrev pub rejected : RateLimitConfig → RateLimitScope Address → Env → Env
  rejected config scope e = record e {
    store =
        set (DataKey.rate_limit_retry_after scope) (retry_after (limits config scope).1) e.store;
  }

  abbrev pub consumed : RateLimitConfig → ℕ → RateLimitScope Address → Env → Env
  consumed config now scope e = record e {
    store = remove (DataKey.rate_limit_retry_after scope) (
        set (DataKey.rate_limit_state scope)
          (record { tokens = available config now scope e - 1; last_refill = now }) e.store);
  }

  -- A round rejects an empty bucket, and otherwise takes one token.
  pub check_scope_cases :
      (config : RateLimitConfig) (now : ℕ) (scope : RateLimitScope Address) (e : Env)
      → ((available config now scope e ≡ 0)
          × (check_scope config now scope e ≡ err rate_limit_exceeded (rejected config scope e)))
        ⊎ ((0 < available config now scope e)
            × (check_scope config now scope e ≡ ok tt (consumed config now scope e)))
  unfolding check_scope
  check_scope_cases config now scope e = elim (Bool-cases (available config now scope e == 0)) [
    | inl h ↦ inl (ground arith, rw h)
    | inr h ↦ inr (ground arith, rw h)
  ]

  pub check_scope-Leaves :
      (config : RateLimitConfig) (now : ℕ) (scope : RateLimitScope Address) (e : Env)
      → Leaves e (check_scope config now scope e)
  check_scope-Leaves config now scope e = elim (check_scope_cases config now scope e) [
    | inl (_, h) ↦ rw h (SameBut-set e _ _ refl)
    | inr (_, h) ↦ rw h (SameBut-trans (SameBut-set e _ _ refl) (SameBut-remove _ _ refl))
  ]

  Leaves-bind :
      (e : Env) (m : Outcome (Unit {0})) (f : Env → Outcome (Unit {0}))
      → Leaves e m
      → ((e' : Env) → Leaves e' (f e'))
      → Leaves e (elim m [ ok a e' ↦ f e' | err x e' ↦ err x e' | trap ↦ trap ])
  Leaves-bind e (ok a e') f h k = Leaves-trans e e' (f e') h (k e')
  Leaves-bind e (err x e') f h k = h
  Leaves-bind e trap f h k = h

  -- The rate limiter writes nothing but buckets, also when it fails, and never panics.
  pub check_rate_limit-Leaves :
      (caller issuer : Address) (e : Env) → Leaves e (check_rate_limit caller issuer e)
  unfolding check_rate_limit
  check_rate_limit-Leaves caller issuer e =
      Leaves-bind e (check_scope _ e.timestamp (RateLimitScope.address caller) e) _
        (check_scope-Leaves _ _ _ e) (λ e'. check_scope-Leaves _ _ _ e')

  abbrev pub IsOk : {A : Type 0} → Outcome A → Type 0
  IsOk (ok _ _) = Unit
  IsOk (err _ _) = ⊥
  IsOk trap = ⊥

  pub IsOk-run : {A : Type 0} (m : Outcome A) → IsOk m → (a : A) × (e : Env) × (m ≡ ok a e)
  IsOk-run (ok a e) h = (a, e, refl)
  IsOk-run (err x e) h = absurd h
  IsOk-run trap h = absurd h

  -- What a bind that succeeds ran.
  pub bind_run :
      {A B : Type 0} (o : Outcome A) (k : A → Env → Outcome B) {b : B} {e' : Env}
      → (elim o [ ok a f ↦ k a f | err x f ↦ err x f | trap ↦ trap ]) ≡ ok b e'
      → (a : A) × (f : Env) × (o ≡ ok a f) × (k a f ≡ ok b e')
  bind_run (ok a f) k p = (a, f, refl, p)
  bind_run (err x f) k p = cc p
  bind_run trap k p = cc p

  -- The opening of every entry point on documents.
  abbrev pub guarded : {A : Type 0} → Address → (Env → Outcome A) → Env → Outcome A
  guarded issuer body = require_auth issuer >> (check_rate_limit issuer issuer >> body)

  abbrev pub Ran : {A : Type 0} → Address → (Env → Outcome A) → Env → A → Env → Type 0
  Ran issuer body e a e' =
      (f : Env) × (e.authorized issuer ≡ true)
      × (check_rate_limit issuer issuer e ≡ ok tt f)
      × SameBut e f
      × (body f ≡ ok a e')

  -- Where a guarded body succeeds, it ran behind the rate limiter's buckets.
  pub guarded_run :
      {A : Type 0} (issuer : Address) (body : Env → Outcome A) (e : Env) {a : A} {e' : Env}
      → guarded issuer body e ≡ ok a e'
      → Ran issuer body e a e'
  guarded_run {A} issuer body e {a} {e'} p = start (e.authorized issuer) refl p
    where
      go :
          e.authorized issuer ≡ true
          → (m : Outcome (Unit {0})) → check_rate_limit issuer issuer e ≡ m
          → Leaves e m
          → (elim m [ ok _ f ↦ body f | err x f ↦ err x f | trap ↦ trap ]) ≡ ok a e'
          → Ran issuer body e a e'
      go h (ok _ f) c l q = (f, h, c, l, q)
      go h (err x f) c l q = cc q
      go h trap c l q = absurd l

      start :
          (b : Bool)
          → e.authorized issuer ≡ b
          → (trap_unless b >> (check_rate_limit issuer issuer >> body)) e ≡ ok a e'
          → Ran issuer body e a e'
      start true h q =
          go h (check_rate_limit issuer issuer e) refl (check_rate_limit-Leaves issuer issuer e) q
      start false h q = cc q

  pub run_guarded :
      {A : Type 0} (issuer : Address) (body : Env → Outcome A) (e : Env) {f : Env}
      → e.authorized issuer ≡ true
      → check_rate_limit issuer issuer e ≡ ok tt f
      → guarded issuer body e ≡ body f
  run_guarded issuer body e a c =
      ap (λ b. (trap_unless b >> (check_rate_limit issuer issuer >> body)) e) a
      ∙ ap (λ m. ((λ f. m) >> body) e) c

  pub admitted-SameBut :
      (caller issuer : Address) (e : Env) {f : Env}
      → check_rate_limit caller issuer e ≡ ok tt f
      → SameBut e f
  admitted-SameBut caller issuer e p = subst (Leaves e) p (check_rate_limit-Leaves caller issuer e)

  -- A predicate on the environment that an outcome leaves, if it is a success.
  abbrev pub Settled {ℓ} : {A : Type 0} → (Env → Type ℓ) → Outcome A → Type ℓ
  Settled P (ok _ e') = P e'
  Settled P (err _ _) = Unit
  Settled P trap = Unit

  -- The rule of a bind, and those of the calls that a bind may begin with.
  pub bind-Settled {ℓ} :
      {A B : Type 0} (P : Env → Type ℓ) (o : Outcome A) (k : A → Env → Outcome B)
      → Settled P o
      → ((a : A) (f : Env) → o ≡ ok a f → P f → Settled P (k a f))
      → Settled P (elim o [ ok a f ↦ k a f | err x f ↦ err x f | trap ↦ trap ])
  bind-Settled P (ok a f) k p next = next a f refl p
  bind-Settled P (err x f) k p next = tt
  bind-Settled P trap k p next = tt

  pub trap_unless-Settled {ℓ} :
      (P : Env → Type ℓ) (b : Bool) (e : Env) → P e → Settled P (trap_unless b e)
  trap_unless-Settled P true e p = p
  trap_unless-Settled P false e p = tt

  pub fail_if-Settled {ℓ} :
      (P : Env → Type ℓ) (b : Bool) (x : ContractError) (e : Env) → P e → Settled P (fail_if b x e)
  fail_if-Settled P true x e p = tt
  fail_if-Settled P false x e p = p

  pub load_or-Settled {ℓ} :
      (P : Env → Type ℓ) (k : Key) (x : ContractError) (e : Env) → P e → Settled P (load_or k x e)
  load_or-Settled P k x e p =
      elim (get k e.store) as (λ o. Settled P (elim o [ some v ↦ ok v e | none ↦ err x e ])) [
        | some v ↦ p
        | none ↦ tt
      ]

  pub if-Settled {ℓ} :
      {A : Type 0} (P : Env → Type ℓ) (b : Bool) (m n : Env → Outcome A) (e : Env)
      → Settled P (m e)
      → Settled P (n e)
      → Settled P ((if b then m else n) e)
  if-Settled P true m n e p q = p
  if-Settled P false m n e p q = q

  pub Settled-of {ℓ} :
      {A : Type 0} (P : Env → Type ℓ) (o : Outcome A)
      → ((a : A) (f : Env) → o ≡ ok a f → P f)
      → Settled P o
  Settled-of P (ok a f) h = h a f refl
  Settled-of P (err x f) h = tt
  Settled-of P trap h = tt
