-- ===== src/Contract/Governance/Keeps.antt =====
-- src/lib.rs: a rule for what the governance entry points keep. They write governance keys only.
use proof_stell_contract.Base.{Bool, true, false, ◌≡◌, refl, is_some}
use proof_stell_contract.Contract.Host.{Host, DataKey, Value, RateLimitConfig}
use proof_stell_contract.Contract.Monad.{
  Env, Key, fail_if, migration_not_needed, fail, require_auth, load_or, unauthorized,
  not_initialized, already_initialized,
}
use proof_stell_contract.Contract.RateLimit.{require_admin, set_rate_limit_config}
use proof_stell_contract.Contract.Frames.{
  Settled, bind-Settled, trap_unless-Settled, fail_if-Settled, if-Settled, load_or-Settled,
}
use proof_stell_contract.Contract.Governance.{
  install, migrate_pre_versioned, initialize, upgrade, migrate, set_feature_flag,
}

abbrev pub is_governance_key : {Address Hash Symbol : Type 0} → DataKey Address Hash Symbol → Bool
is_governance_key DataKey.admin = true
is_governance_key DataKey.version = true
is_governance_key (DataKey.feature_flag _) = true
is_governance_key DataKey.rate_limit_config = true
is_governance_key _ = false

module _ {ℓ} ⦃host : Host⦄ (Q : host.Store → Type ℓ)
    (keeps : (k : Key)
      → is_governance_key k ≡ true
      → (v : Value k) (s : host.Store) → Q s
      → Q (host.set k v s)) where
  open host use {Address, Hash, Symbol}

  abbrev P : Env → Type ℓ
  P e = Q e.store

  require_admin-keeps : (a : Address) (e : Env) → P e → Settled P (require_admin a e)
  unfolding require_admin
  require_admin-keeps a e p =
      bind-Settled P (require_auth a e) _ (trap_unless-Settled P _ e p) λ _ f _ q.
        bind-Settled P (load_or DataKey.admin not_initialized f) _ (load_or-Settled P _ _ f q)
          λ s g _ r. fail_if-Settled P _ unauthorized g r

  pub initialize-keeps : (a : Address) (e : Env) → P e → Settled P (initialize a e)
  unfolding initialize
  initialize-keeps a e p =
      bind-Settled P (require_auth a e) _ (trap_unless-Settled P _ e p) λ _ f _ q.
        let found = is_some (host.get DataKey.version f.store) in
        bind-Settled P (fail_if found already_initialized f) (λ _. install a)
          (fail_if-Settled P found already_initialized f q)
          λ _ g _ r. keeps DataKey.version refl _ _ (keeps DataKey.admin refl _ _ r)

  pub upgrade-keeps : (a : Address) (w : Hash) (e : Env) → P e → Settled P (upgrade a w e)
  unfolding upgrade
  upgrade-keeps a w e p =
      bind-Settled P (require_admin a e) _ (require_admin-keeps a e p) λ _ f _ q. q

  pub migrate-keeps : (a : Address) (e : Env) → P e → Settled P (migrate a e)
  unfolding migrate
  migrate-keeps a e p = bind-Settled P (require_auth a e) _ (trap_unless-Settled P _ e p) λ _ f _ q.
      if-Settled P _ (migrate_pre_versioned a) (fail migration_not_needed) f
        (keeps DataKey.version refl _ _ (keeps DataKey.admin refl _ _ q)) tt

  pub set_feature_flag-keeps :
      (a : Address) (s : Symbol) (b : Bool) (e : Env) → P e → Settled P (set_feature_flag a s b e)
  unfolding set_feature_flag
  set_feature_flag-keeps a s b e p =
      bind-Settled P (require_admin a e) _ (require_admin-keeps a e p)
        λ _ f _ q. keeps (DataKey.feature_flag s) refl b _ q

  pub set_rate_limit_config-keeps :
      (a : Address) (c : RateLimitConfig) (e : Env) → P e → Settled P (set_rate_limit_config a c e)
  unfolding set_rate_limit_config
  set_rate_limit_config-keeps a c e p =
      bind-Settled P (require_admin a e) _ (require_admin-keeps a e p)
        λ _ f _ q. keeps DataKey.rate_limit_config refl c _ q
