-- ===== src/Contract/Governance.antt =====
-- src/lib.rs, initialisation, upgrades, migration and feature flags.
pub mod Keeps
pub mod Admin
pub mod Migration
use proof_stell_contract.Base.{ℕ, Bool, false, Option, if◌then◌else◌, ◌==◌, unwrap_or}
use proof_stell_contract.Contract.Host.{Host, DataKey}
use proof_stell_contract.Contract.Monad.{
  Env, Outcome, ContractEvent, already_initialized, migration_not_needed, ◌>>=◌, ◌>>◌, pure, fail,
  fail_if, require_auth, load, has, store, publish, update_current_contract_wasm,
}
use proof_stell_contract.Contract.RateLimit.{require_admin}

abbrev pub contract_version : ℕ
contract_version = 1

module _ ⦃host : Host⦄ where
  open host use {Address, Hash, Symbol, get}

  unfoldable pub install : Address → Env → Outcome (Unit {0})
  install admin = do
    store DataKey.admin admin
    store DataKey.version contract_version
    publish (ContractEvent.contract_initialized admin contract_version)

  unfoldable pub initialize : Address → Env → Outcome (Unit {0})
  unfolding install
  initialize admin = do
    require_auth admin
    initialized ← has DataKey.version
    fail_if initialized already_initialized
    install admin

  unfoldable pub get_version : Env → ℕ
  get_version e = unwrap_or (get DataKey.version e.store) 0

  unfoldable pub get_admin : Env → Option Address
  get_admin e = get DataKey.admin e.store

  unfoldable pub upgrade : Address → Hash → Env → Outcome (Unit {0})
  unfolding require_admin
  upgrade admin new_wasm_hash = do
    require_admin admin
    found ← load DataKey.version
    let old_version : ℕ = unwrap_or found 0
    update_current_contract_wasm new_wasm_hash
    publish (ContractEvent.contract_upgraded admin old_version old_version)

  unfoldable pub migrate_pre_versioned : Address → Env → Outcome ℕ
  migrate_pre_versioned admin = do
    store DataKey.admin admin
    store DataKey.version contract_version
    pure contract_version

  unfoldable pub migrate : Address → Env → Outcome ℕ
  unfolding migrate_pre_versioned
  migrate admin = do
    require_auth admin
    found ← load DataKey.version
    let current_version : ℕ = unwrap_or found 0
    if current_version == 0 then migrate_pre_versioned admin else fail migration_not_needed

  unfoldable pub set_feature_flag : Address → Symbol → Bool → Env → Outcome (Unit {0})
  unfolding require_admin
  set_feature_flag admin flag enabled = do
    require_admin admin
    store (DataKey.feature_flag flag) enabled

  unfoldable pub get_feature_flag : Symbol → Env → Bool
  get_feature_flag flag e = unwrap_or (get (DataKey.feature_flag flag) e.store) false
