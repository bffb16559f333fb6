-- ===== src/Contract/Monad.antt =====
-- How an entry point of src/lib.rs runs: the environment that it reads and writes, its three
-- outcomes, and the SDK calls that the entry points are written with.
use proof_stell_contract.Base.{
  ℕ, Bool, List, [], ◌∷◌, ◌++◌, Option, none, some, true, false, is_some,
}
use proof_stell_contract.Contract.Host.{Host, DataKey, Value}

pub data ContractError : Type 0 where
  document_not_found already_registered only_issuer_can_revoke already_revoked : ContractError
  invalid_owner invalid_issuer batch_too_large batch_empty already_initialized : ContractError
  not_initialized unauthorized migration_not_needed rate_limit_exceeded : ContractError

pub data ContractEvent (Address Hash : Type 0) : Type 0 where
  document_registered : (issuer owner : Address) (document_hash : Hash) → ContractEvent Address Hash
  document_revoked : (issuer : Address) (document_hash : Hash) → ContractEvent Address Hash
  contract_initialized : (admin : Address) (version : ℕ) → ContractEvent Address Hash
  contract_upgraded : (admin : Address) (old_version new_version : ℕ) → ContractEvent Address Hash

module _ ⦃host : Host⦄ where
  open host use {Address, Hash, Symbol, Store, get, set, remove}

  abbrev pub Key : Type 0
  Key = DataKey Address Hash Symbol

  pub record Env : Type 0 where
    pub store : Store
    -- Newest last.
    pub events : List (ContractEvent Address Hash)
    -- The WASM hashes handed to `update_current_contract_wasm`, newest first. The host replaces
    -- the code after the invocation, so that later ones run it.
    pub upgrades : List Hash
    pub timestamp : ℕ
    -- The addresses whose authorisation the invocation carries.
    pub authorized : Address → Bool

  -- `trap` is a panic of the host, as from `require_auth`.
  pub data Outcome (A : Type 0) : Type 0 where
    ok : A → Env → Outcome A
    err : ContractError → Env → Outcome A
    trap : Outcome A

module _ ⦃host : Host⦄ where
  open host use {Address, Hash, Symbol, get, set, remove}

  infixl 5 ◌>>=◌ ◌>>◌
  abbrev pub ◌>>=◌ : {A B : Type 0} → (Env → Outcome A) → (A → Env → Outcome B) → Env → Outcome B
  ◌>>=◌ m f e = elim (m e) [ ok a e' ↦ f a e' | err x e' ↦ err x e' | trap ↦ trap ]

  abbrev pub ◌>>◌ : {B : Type 0} → (Env → Outcome (Unit {0})) → (Env → Outcome B) → Env → Outcome B
  m >> k = m >>= λ _. k

  abbrev pub pure : {A : Type 0} → A → Env → Outcome A
  pure a e = ok a e

  abbrev pub fail : {A : Type 0} → ContractError → Env → Outcome A
  fail x e = err x e

  abbrev pub fail_if : Bool → ContractError → Env → Outcome (Unit {0})
  fail_if true x e = err x e
  fail_if false x e = ok tt e

  abbrev pub trap_unless : Bool → Env → Outcome (Unit {0})
  trap_unless true e = ok tt e
  trap_unless false e = trap

  abbrev pub require_auth : Address → Env → Outcome (Unit {0})
  require_auth a e = trap_unless (e.authorized a) e

  abbrev pub load : (k : Key) → Env → Outcome (Option (Value k))
  load k e = ok (get k e.store) e

  -- `get(&key).ok_or(error)?`
  abbrev pub load_or : (k : Key) → ContractError → Env → Outcome (Value k)
  load_or k x e = elim (get k e.store) [ some v ↦ ok v e | none ↦ err x e ]

  abbrev pub has : Key → Env → Outcome Bool
  has k e = ok (is_some (get k e.store)) e

  abbrev pub store : (k : Key) → Value k → Env → Outcome (Unit {0})
  store k v e = ok tt (record e { store = set k v e.store })

  abbrev pub delete : Key → Env → Outcome (Unit {0})
  delete k e = ok tt (record e { store = remove k e.store })

  abbrev pub ledger_timestamp : Env → Outcome ℕ
  ledger_timestamp e = ok e.timestamp e

  abbrev pub publish : ContractEvent Address Hash → Env → Outcome (Unit {0})
  publish v e = ok tt (record e { events = e.events ++ v ∷ [] })

  abbrev pub update_current_contract_wasm : Hash → Env → Outcome (Unit {0})
  update_current_contract_wasm h e = ok tt (record e { upgrades = h ∷ e.upgrades })
