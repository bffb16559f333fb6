-- ===== src/Contract/History/Retries.antt =====
-- src/lib.rs, `check_rate_limit` and `get_rate_limit_retry_after`: what a caller can learn of the delay.
use proof_stell_contract.Base.{
  ℕ, List, [], ◌∷◌, ◌≡◌, refl, sym, subst, ap, ◌∙◌, none, Bool, true, false, inl, inr, length, ltb,
  ◌==◌,
}
use proof_stell_contract.Contract.Host.{
  Host, DataKey, Value, RateLimitScope, RateLimitConfig, DocumentRecord,
}
use proof_stell_contract.Contract.Monad.{
  Env, Key, Outcome, require_auth, batch_empty, batch_too_large, fail_if, ◌>>◌,
}
use proof_stell_contract.Contract.RateLimit.{
  check_rate_limit, check_scope, get_rate_limit_retry_after,
}
use proof_stell_contract.Contract.Frames.{
  Settled, bind-Settled, trap_unless-Settled, fail_if-Settled, check_scope_cases, guarded,
}
use proof_stell_contract.Contract.Governance.Keeps.{
  is_governance_key, initialize-keeps, upgrade-keeps, migrate-keeps, set_feature_flag-keeps,
  set_rate_limit_config-keeps,
}
use proof_stell_contract.Contract.Documents
use proof_stell_contract.Contract.Documents.{
  DocumentInfo, register_one, revoke_one, for_each, max_batch_size,
}
use proof_stell_contract.Contract.Documents.Register.{register_one_cases, sized}
use proof_stell_contract.Contract.Documents.Revoke.{
  revoke_one-RevokeCase, missing, foreign, again, done,
}
use proof_stell_contract.Contract.History.{Call, invoke, settle, settle-keeps, Reach, Reach-keeps}

module _ ⦃host : Host⦄ where
  open host use {Address, Hash, get, set, remove, get-set_ne, get-remove_ne, get-remove_self}

  -- No delay is on record.
  Quiet : host.Store → Type 0
  Quiet s = (scope : RateLimitScope Address) → get (DataKey.rate_limit_retry_after scope) s ≡ none

  abbrev QuietEnv : Env → Type 0
  QuietEnv e = Quiet e.store

  is_retry_key : Key → Bool
  is_retry_key (DataKey.rate_limit_retry_after _) = true
  is_retry_key _ = false

  Quiet-set :
      (k : Key) (v : Value k) (s : host.Store)
      → is_retry_key k ≡ false
      → Quiet s
      → Quiet (set k v s)
  unfolding Quiet is_retry_key
  Quiet-set k v s n q scope =
      get-set_ne (DataKey.rate_limit_retry_after scope) k v s
        (λ (z : DataKey.rate_limit_retry_after scope ≡ k). cc z)
      ∙ q scope

  retry_key_eq :
      (a b : RateLimitScope Address)
      → Dec (◌≡◌ {A = Key} (DataKey.rate_limit_retry_after a) (DataKey.rate_limit_retry_after b))
  retry_key_eq (RateLimitScope.address a) (RateLimitScope.address b) = elim (host.address_eq a b) [
    | yes p ↦ yes (ap (λ x. DataKey.rate_limit_retry_after (RateLimitScope.address x)) p)
    | no n ↦ no (λ z. n (cc z))
  ]
  retry_key_eq (RateLimitScope.issuer a) (RateLimitScope.issuer b) = elim (host.address_eq a b) [
    | yes p ↦ yes (ap (λ x. DataKey.rate_limit_retry_after (RateLimitScope.issuer x)) p)
    | no n ↦ no (λ z. n (cc z))
  ]
  retry_key_eq (RateLimitScope.address a) (RateLimitScope.issuer b) = no (λ z. cc z)
  retry_key_eq (RateLimitScope.issuer a) (RateLimitScope.address b) = no (λ z. cc z)

  Quiet-remove :
      (scope : RateLimitScope Address) (s : host.Store)
      → Quiet s
      → Quiet (remove (DataKey.rate_limit_retry_after scope) s)
  unfolding Quiet
  Quiet-remove scope s q other = elim (retry_key_eq other scope) [
    | yes p ↦
        subst (λ k. get k (remove (DataKey.rate_limit_retry_after scope) s) ≡ none) (sym p)
          (get-remove_self (DataKey.rate_limit_retry_after scope) s)
    | no n ↦ get-remove_ne _ _ s n ∙ q other
  ]

  check_scope-Quiet :
      (config : RateLimitConfig) (now : ℕ) (scope : RateLimitScope Address) (e : Env)
      → QuietEnv e
      → Settled QuietEnv (check_scope config now scope e)
  unfolding is_retry_key
  check_scope-Quiet config now scope e q = elim (check_scope_cases config now scope e) [
    | inl (_, p) ↦ rw p tt
    | inr (_, p) ↦
        rw p (Quiet-remove scope _ (Quiet-set (DataKey.rate_limit_state scope) _ e.store refl q))
  ]

  check_rate_limit-Quiet :
      (a i : Address) (e : Env) → QuietEnv e → Settled QuietEnv (check_rate_limit a i e)
  unfolding check_rate_limit
  check_rate_limit-Quiet a i e q =
      bind-Settled QuietEnv (check_scope _ e.timestamp (RateLimitScope.address a) e) _
        (check_scope-Quiet _ _ _ e q) λ _ f _ p. check_scope-Quiet _ _ _ f p

  guarded-Quiet :
      {A : Type 0} (i : Address) (body : Env → Outcome A) (e : Env)
      → ((f : Env) → QuietEnv f → Settled QuietEnv (body f))
      → QuietEnv e
      → Settled QuietEnv (guarded i body e)
  guarded-Quiet i body e h q =
      bind-Settled QuietEnv (require_auth i e) _ (trap_unless-Settled QuietEnv _ e q) λ _ f _ p.
        bind-Settled QuietEnv (check_rate_limit i i f) _ (check_rate_limit-Quiet i i f p)
          λ _ g _ r. h g r

  sized-Quiet :
      {A B : Type 0} (xs : List A) (body : Env → Outcome B) (e : Env)
      → ((f : Env) → QuietEnv f → Settled QuietEnv (body f))
      → QuietEnv e
      → Settled QuietEnv (sized xs body e)
  sized-Quiet xs body e h q =
      bind-Settled QuietEnv (fail_if (length xs == 0) batch_empty e)
        (λ _. fail_if (ltb max_batch_size (length xs)) batch_too_large >> body)
        (fail_if-Settled QuietEnv _ batch_empty e q)
        λ _ f _ p.
          bind-Settled QuietEnv (fail_if (ltb max_batch_size (length xs)) batch_too_large f)
            (λ _. body) (fail_if-Settled QuietEnv _ batch_too_large f p) λ _ g _ r. h g r

  register_one-Quiet :
      (i o : Address) (h : Hash) (e : Env) → QuietEnv e → Settled QuietEnv (register_one i o h e)
  unfolding is_retry_key
  register_one-Quiet i o h e q = elim (register_one_cases i o h e) [
    | inl (_, _, p) ↦ rw p tt
    | inr (_, p) ↦ rw p (Quiet-set (DataKey.document h) _ e.store refl q)
  ]

  revoke_one-Quiet :
      (i : Address) (h : Hash) (e : Env) → QuietEnv e → Settled QuietEnv (revoke_one i h e)
  unfolding is_retry_key
  revoke_one-Quiet i h e q = elim (revoke_one-RevokeCase i h e) [
    | missing _ p ↦ rw p tt
    | foreign _ _ _ p ↦ rw p tt
    | again _ _ _ _ p ↦ rw p tt
    | done _ _ _ p ↦ rw p (Quiet-set (DataKey.document h) _ e.store refl q)
  ]

  for_each-Quiet :
      {A : Type 0} (body : A → Env → Outcome (DocumentRecord Address))
      → ((x : A) (f : Env) → QuietEnv f → Settled QuietEnv (body x f))
      → (xs : List A) (e : Env) → QuietEnv e
      → Settled QuietEnv (for_each body xs e)
  unfolding for_each
  for_each-Quiet body h [] e q = q
  for_each-Quiet body h (x ∷ xs) e q = bind-Settled QuietEnv (body x e) _ (h x e q) λ _ f _ p.
      bind-Settled QuietEnv (for_each body xs f) _ (for_each-Quiet body h xs f p) λ _ g _ r. r

  governance_key :
      (k : Key)
      → is_governance_key k ≡ true
      → (v : Value k) (s : host.Store) → Quiet s
      → Quiet (set k v s)
  unfolding is_retry_key
  governance_key k g v s q = Quiet-set k v s (go k g) q
    where
      go : (k : Key) → is_governance_key k ≡ true → is_retry_key k ≡ false
      go (DataKey.rate_limit_retry_after _) h = cc h
      go (DataKey.document _) h = refl
      go _ h = refl

  Quiet-settles :
      {A : Type 0} (e : Env) (o : Outcome A)
      → QuietEnv e
      → Settled QuietEnv o
      → QuietEnv (settle e o)
  Quiet-settles e o = settle-keeps QuietEnv e o (λ f g p q. subst Quiet p q)

  invoke-Quiet : (c : Call) (e : Env) → QuietEnv e → QuietEnv (invoke c e)
  unfolding invoke Documents.register_document Documents.revoke_document
      Documents.batch_register_documents Documents.batch_revoke_documents
  invoke-Quiet (Call.register_document i o h) e q =
      Quiet-settles e _ q (guarded-Quiet i _ e (λ f. register_one-Quiet i o h f) q)
  invoke-Quiet (Call.revoke_document i h) e q =
      Quiet-settles e _ q (guarded-Quiet i _ e (λ f. revoke_one-Quiet i h f) q)
  invoke-Quiet (Call.batch_register_documents i ds) e q = Quiet-settles e _ q (
      guarded-Quiet i (sized ds (for_each _ ds)) e
        (λ f.
          sized-Quiet ds (for_each _ ds) f
            (for_each-Quiet _ (λ d g. register_one-Quiet i d.owner d.document_hash g) ds))
        q)
  invoke-Quiet (Call.batch_revoke_documents i hs) e q = Quiet-settles e _ q (
      guarded-Quiet i (sized hs (for_each _ hs)) e
        (λ f.
          sized-Quiet hs (for_each _ hs) f (for_each-Quiet _ (λ h g. revoke_one-Quiet i h g) hs))
        q)
  invoke-Quiet (Call.initialize a) e q =
      Quiet-settles e _ q (initialize-keeps Quiet governance_key a e q)
  invoke-Quiet (Call.upgrade a w) e q =
      Quiet-settles e _ q (upgrade-keeps Quiet governance_key a w e q)
  invoke-Quiet (Call.migrate a) e q = Quiet-settles e _ q (migrate-keeps Quiet governance_key a e q)
  invoke-Quiet (Call.set_feature_flag a f b) e q =
      Quiet-settles e _ q (set_feature_flag-keeps Quiet governance_key a f b e q)
  invoke-Quiet (Call.set_rate_limit_config a c) e q =
      Quiet-settles e _ q (set_rate_limit_config-keeps Quiet governance_key a c e q)

  -- No history of invocations of the contract's code, up to an upgrade that succeeds, leaves a retry
  -- delay to read, if there was none at its start: the delay is written only by an invocation that
  -- fails, and the host rolls that back.
  pub Reach-no_retry_after :
      {e f : Env}
      → ((scope : RateLimitScope Address) → get_rate_limit_retry_after scope e ≡ none)
      → Reach e f
      → (scope : RateLimitScope Address) → get_rate_limit_retry_after scope f ≡ none
  unfolding get_rate_limit_retry_after Quiet
  Reach-no_retry_after q path =
      Reach-keeps QuietEnv (λ f g p r. subst Quiet p r) invoke-Quiet path q
