-- ===== src/Contract/History/Governed.antt =====
-- src/lib.rs: the admin and the version over a history, and who may govern.
use proof_stell_contract.Base.{
  ℕ, List, ◌≡◌, refl, sym, subst, ap, ◌∙◌, ◌≢◌, Option, none, some, arith, unwrap_or, is_some, ◌==◌,
  if◌then◌else◌,
}
use proof_stell_contract.Contract.Host.{Host, DataKey, Value}
use proof_stell_contract.Contract.Monad.{
  Env, Key, Outcome, already_initialized, migration_not_needed, fail, fail_if, require_auth, ◌>>◌,
}
use proof_stell_contract.Contract.RateLimit
use proof_stell_contract.Contract.RateLimit.{require_admin}
use proof_stell_contract.Contract.Frames.{Settled, Settled-of, bind-Settled, trap_unless-Settled}
use proof_stell_contract.Contract.Governance.Admin.{
  then-AdminCase, unsigned, uninitialized, stranger, governs,
}
use proof_stell_contract.Contract.Governance.{
  install, migrate_pre_versioned, initialize, upgrade, get_version, get_admin, migrate,
  set_feature_flag,
}
use proof_stell_contract.Contract.Documents
use proof_stell_contract.Contract.Documents.Register.{register_document-Registered}
use proof_stell_contract.Contract.Documents.Revoke.{revoke_document-Revoked}
use proof_stell_contract.Contract.Documents.BatchRegister.{
  Docs, batch_register_documents-AllRegistered,
}
use proof_stell_contract.Contract.Documents.BatchRevoke.{batch_revoke_documents-AllRevoked}
use proof_stell_contract.Contract.History.{Call, invoke, settle, settle-keeps, Reach, Reach-keeps}

module _ ⦃host : Host⦄ where
  open host use {Address, Hash, Symbol, get, set, get-set_ne, get-set_self}

  module _ (a : Address) where
    -- The contract is at version 1, and `a` governs it.
    pub record Governs (e : Env) : Type 0 where
      pub version : get DataKey.version e.store ≡ some 1
      pub admin : get DataKey.admin e.store ≡ some a

    Governs-store : (e f : Env) → e.store ≡ f.store → Governs e → Governs f
    Governs-store e f q g = record {
      version = ap (get DataKey.version) (sym q) ∙ g.version;
      admin = ap (get DataKey.admin) (sym q) ∙ g.admin;
    }

    Governs-same :
        (e f : Env)
        → get DataKey.version f.store ≡ get DataKey.version e.store
        → get DataKey.admin f.store ≡ get DataKey.admin e.store
        → Governs e
        → Governs f
    Governs-same e f p q g = record { version = p ∙ g.version; admin = q ∙ g.admin }

    Governs-set :
        (k : Key) (v : Value k) (e : Env)
        → DataKey.version ≢ k
        → DataKey.admin ≢ k
        → Governs e
        → Governs (record e { store = set k v e.store })
    Governs-set k v e m n =
        Governs-same e _ (get-set_ne _ k v e.store m) (get-set_ne _ k v e.store n)

    register_document-Governs :
        (i o : Address) (h : Hash) (e : Env)
        → Governs e
        → Settled Governs (Documents.register_document i o h e)
    register_document-Governs i o h e g = Settled-of Governs _ λ s f q.
        let v = register_document-Registered i o h e q in
        Governs-same e f (v.touches.rest DataKey.version refl refl)
          (v.touches.rest DataKey.admin refl refl) g

    revoke_document-Governs :
        (i : Address) (h : Hash) (e : Env)
        → Governs e
        → Settled Governs (Documents.revoke_document i h e)
    revoke_document-Governs i h e g = Settled-of Governs _ λ s f q.
        let (_, _, v) = revoke_document-Revoked i h e q in
        Governs-same e f (v.touches.rest DataKey.version refl refl)
          (v.touches.rest DataKey.admin refl refl) g

    batch_register_documents-Governs :
        (i : Address) (ds : Docs) (e : Env)
        → Governs e
        → Settled Governs (Documents.batch_register_documents i ds e)
    batch_register_documents-Governs i ds e g = Settled-of Governs _ λ s f q.
        let v = batch_register_documents-AllRegistered i ds e q in
        Governs-same e f (v.rest DataKey.version refl refl) (v.rest DataKey.admin refl refl) g

    batch_revoke_documents-Governs :
        (i : Address) (hs : List Hash) (e : Env)
        → Governs e
        → Settled Governs (Documents.batch_revoke_documents i hs e)
    batch_revoke_documents-Governs i hs e g = Settled-of Governs _ λ s f q.
        let v = batch_revoke_documents-AllRevoked i hs e q in
        Governs-same e f (v.rest DataKey.version refl refl) (v.rest DataKey.admin refl refl) g

    initialize-Governs : (b : Address) (e : Env) → Governs e → Settled Governs (initialize b e)
    unfolding initialize
    initialize-Governs b e g =
        bind-Settled Governs (require_auth b e) _ (trap_unless-Settled Governs _ e g) λ _ f _ q.
          subst (λ o. Settled Governs ((fail_if (is_some o) already_initialized >> install b) f))
            (sym q.version) tt

    migrate-Governs : (b : Address) (e : Env) → Governs e → Settled Governs (migrate b e)
    unfolding migrate
    migrate-Governs b e g =
        bind-Settled Governs (require_auth b e) _ (trap_unless-Settled Governs _ e g) λ _ f _ q.
          subst
            (λ o. Settled Governs (
              (if unwrap_or o 0 == 0 then migrate_pre_versioned b else fail migration_not_needed)
                f))
            (sym q.version) tt

    after_admin-Governs :
        {A : Type 0} (b : Address) (e : Env) (k : Env → Outcome A)
        → Settled Governs (k e)
        → Settled Governs ((require_admin b >> k) e)
    after_admin-Governs b e k p = elim (then-AdminCase b e k) [
      | unsigned _ q ↦ rw q tt
      | uninitialized _ _ q ↦ rw q tt
      | stranger _ _ _ _ q ↦ rw q tt
      | governs _ _ q ↦ rw q p
    ]

    Governs-settles :
        {A : Type 0} (e : Env) (o : Outcome A)
        → Governs e
        → Settled Governs o
        → Governs (settle e o)
    Governs-settles e o = settle-keeps Governs e o Governs-store

    invoke-Governs : (c : Call) (e : Env) → Governs e → Governs (invoke c e)
    unfolding invoke upgrade set_feature_flag RateLimit.set_rate_limit_config
    invoke-Governs (Call.register_document i o h) e g =
        Governs-settles e _ g (register_document-Governs i o h e g)
    invoke-Governs (Call.revoke_document i h) e g =
        Governs-settles e _ g (revoke_document-Governs i h e g)
    invoke-Governs (Call.batch_register_documents i ds) e g =
        Governs-settles e _ g (batch_register_documents-Governs i ds e g)
    invoke-Governs (Call.batch_revoke_documents i hs) e g =
        Governs-settles e _ g (batch_revoke_documents-Governs i hs e g)
    invoke-Governs (Call.initialize b) e g = Governs-settles e _ g (initialize-Governs b e g)
    invoke-Governs (Call.upgrade b w) e g =
        Governs-settles e _ g (after_admin-Governs b e _ (Governs-same e _ refl refl g))
    invoke-Governs (Call.migrate b) e g = Governs-settles e _ g (migrate-Governs b e g)
    invoke-Governs (Call.set_feature_flag b f v) e g = Governs-settles e _ g (
        after_admin-Governs b e _
          (Governs-set (DataKey.feature_flag f) v e (λ q. cc q) (λ q. cc q) g))
    invoke-Governs (Call.set_rate_limit_config b c) e g = Governs-settles e _ g (
        after_admin-Governs b e _
          (Governs-set DataKey.rate_limit_config c e (λ q. cc q) (λ q. cc q) g))

  version_stored : (o : Option ℕ) → unwrap_or o 0 ≡ 1 → o ≡ some 1
  version_stored none h = absurd (omega arith)
  version_stored (some v) h = ap some h

  -- Once the contract is at version 1 with an admin, its code never changes the version or the admin, in
  -- whatever history of its invocations up to an upgrade that succeeds, that one included: only the
  -- code that an upgrade brings can.
  pub Reach-admin_fixed :
      (a : Address) {e f : Env}
      → get_version e ≡ 1
      → get_admin e ≡ some a
      → Reach e f
      → (get_version f ≡ 1) × (get_admin f ≡ some a)
  unfolding get_version get_admin
  Reach-admin_fixed a v g path =
      let w =
        Reach-keeps (Governs a) (Governs-store a) (invoke-Governs a) path
          (record { version = version_stored _ v; admin = g }) in
      (ap (λ o. unwrap_or o 0) w.version, w.admin)
