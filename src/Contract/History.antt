-- ===== src/Contract/History.antt =====
-- src/lib.rs: histories of invocations. The host commits an invocation that succeeds, and rolls back
-- one that fails or panics; the clock and the authorisations are the environment's choice.
pub mod Records
pub mod Governed
pub mod Retries
use proof_stell_contract.Base.{ℕ, Bool, List, ◌≡◌, refl, sym}
use proof_stell_contract.Contract.Host.{Host, RateLimitConfig}
use proof_stell_contract.Contract.Monad.{Env, Outcome, ok, err, trap}
use proof_stell_contract.Contract.RateLimit
use proof_stell_contract.Contract.Frames.{Settled}
use proof_stell_contract.Contract.Documents
use proof_stell_contract.Contract.Documents.{DocumentInfo}
use proof_stell_contract.Contract.Governance

module _ ⦃host : Host⦄ where
  open host use {Address, Hash, Symbol, rollback}

  pub data Call : Type 0 where
    register_document : (issuer owner : Address) (document_hash : Hash) → Call
    revoke_document : (issuer : Address) (document_hash : Hash) → Call
    batch_register_documents : (issuer : Address) → List (DocumentInfo Address Hash) → Call
    batch_revoke_documents : (issuer : Address) → List Hash → Call
    initialize : (admin : Address) → Call
    upgrade : (admin : Address) (new_wasm_hash : Hash) → Call
    migrate : (admin : Address) → Call
    set_feature_flag : (admin : Address) (flag : Symbol) (enabled : Bool) → Call
    set_rate_limit_config : (admin : Address) (config : RateLimitConfig) → Call

  -- The environment that an invocation leaves, from the one that it began in.
  abbrev pub settle : {A : Type 0} → Env → Outcome A → Env
  settle e (ok _ e') = e'
  settle e (err _ e') = record e { store = rollback e.store e'.store }
  settle e trap = e

  unfoldable pub invoke : Call → Env → Env
  invoke (Call.register_document i o h) e = settle e (Documents.register_document i o h e)
  invoke (Call.revoke_document i h) e = settle e (Documents.revoke_document i h e)
  invoke (Call.batch_register_documents i ds) e =
      settle e (Documents.batch_register_documents i ds e)
  invoke (Call.batch_revoke_documents i hs) e = settle e (Documents.batch_revoke_documents i hs e)
  invoke (Call.initialize a) e = settle e (Governance.initialize a e)
  invoke (Call.upgrade a w) e = settle e (Governance.upgrade a w e)
  invoke (Call.migrate a) e = settle e (Governance.migrate a e)
  invoke (Call.set_feature_flag a f b) e = settle e (Governance.set_feature_flag a f b e)
  invoke (Call.set_rate_limit_config a c) e = settle e (RateLimit.set_rate_limit_config a c e)

  abbrev pub at : ℕ → (Address → Bool) → Env → Env
  at now authorized e = record e { timestamp = now; authorized = authorized }

  -- `f` comes of `e` by invocations, each at a time and with authorisations of its own. Each runs the
  -- code of `e`: after an upgrade that succeeds the host runs other code, so that such an upgrade
  -- ends the history.
  pub data Reach (e : Env) : Env → Type 0 where
    here : Reach e e
    call :
        {f g : Env} (now : ℕ) (authorized : Address → Bool) (c : Call)
        → Reach e f
        → f.upgrades ≡ e.upgrades
        → g ≡ invoke c (at now authorized f)
        → Reach e g

  -- What holds before an invocation and after its success holds after it.
  pub settle-keeps {ℓ} :
      {A : Type 0} (P : Env → Type ℓ) (e : Env) (o : Outcome A)
      → ((f g : Env) → f.store ≡ g.store → P f → P g)
      → P e
      → Settled P o
      → P (settle e o)
  settle-keeps P e (ok _ e') only p q = q
  settle-keeps P e (err _ e') only p q =
      only e (record e { store = rollback e.store e'.store })
        (sym (host.rollback_lem e.store e'.store)) p
  settle-keeps P e trap only p q = p

  -- Where every entry point keeps such a property, so does every history.
  pub Reach-keeps {ℓ} :
      (P : Env → Type ℓ)
      → ((f g : Env) → f.store ≡ g.store → P f → P g)
      → ((c : Call) (f : Env) → P f → P (invoke c f))
      → {e f : Env} → Reach e f
      → P e
      → P f
  Reach-keeps P only keep here p = p
  Reach-keeps P only keep (call {f} now auth c r same q) p =
      rw q (keep c (at now auth f) (only f (at now auth f) refl (Reach-keeps P only keep r p)))
