-- ===== src/Contract/Governance/Migration.antt =====
-- src/lib.rs, `initialize` and `migrate`: how the contract comes to have an admin.
use proof_stell_contract.Base.{
  ℕ, ◌≡◌, ap, ◌∙◌, ◌≢◌, Bool, true, false, some, unwrap_or, ◌==◌, if◌then◌else◌,
}
use proof_stell_contract.Contract.Host.{Host, DataKey}
use proof_stell_contract.Contract.Monad.{
  Env, Outcome, ok, err, unauthorized, migration_not_needed, trap_unless, fail, ◌>>◌,
}
use proof_stell_contract.Contract.Governance.{
  get_admin, get_version, migrate, migrate_pre_versioned,
}

module _ ⦃host : Host⦄ where
  open host use {Address, get, set, get-set_self, get-set_ne}

  -- The store with `a` as the admin and version 1.
  abbrev pub governed : Address → host.Store → host.Store
  governed a s = set DataKey.version 1 (set DataKey.admin a s)

  governed-admin : (a : Address) (s : host.Store) → get DataKey.admin (governed a s) ≡ some a
  governed-admin a s =
      get-set_ne DataKey.admin DataKey.version 1 (set DataKey.admin a s) (λ q. cc q)
      ∙ get-set_self DataKey.admin a s

  by_version : Address → Env → Outcome ℕ
  by_version a f =
      (if unwrap_or (get DataKey.version f.store) 0 == 0
          then migrate_pre_versioned a
          else fail migration_not_needed)
        f

  -- At version 0 any address that authorises the call becomes the admin, whoever the stored admin is.
  pub migrate-takes_over :
      (a : Address) (e : Env)
      → e.authorized a ≡ true
      → get_version e ≡ 0
      → (e' : Env) × (migrate a e ≡ ok 1 e') × (get_admin e' ≡ some a) × (get_version e' ≡ 1)
  unfolding migrate by_version get_version get_admin
  migrate-takes_over a e s v = (
    record e { store = governed a e.store },
    ap (λ t. (trap_unless t >> by_version a) e) s
        ∙ ap (λ n. (if n == 0 then migrate_pre_versioned a else fail migration_not_needed) e) v,
    governed-admin a e.store,
    ap (λ o. unwrap_or o 0) (get-set_self DataKey.version 1 (set DataKey.admin a e.store)),
  )

  by_version-ne :
      (a : Address) (e f : Env) (b : Bool)
      → (if b then migrate_pre_versioned a else fail migration_not_needed) e ≢ err unauthorized f
  unfolding migrate_pre_versioned
  by_version-ne a e f false p = cc p
  by_version-ne a e f true p = cc p

  never_unauthorized :
      (a : Address) (e f : Env) (s : Bool) → (trap_unless s >> by_version a) e ≢ err unauthorized f
  unfolding by_version
  never_unauthorized a e f false p = cc p
  never_unauthorized a e f true p = by_version-ne a e f _ p

  -- `migrate` never fails with `Unauthorized`.
  pub migrate-ne-unauthorized : (a : Address) (e f : Env) → migrate a e ≢ err unauthorized f
  unfolding migrate by_version
  migrate-ne-unauthorized a e f = never_unauthorized a e f (e.authorized a)
