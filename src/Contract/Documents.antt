-- ===== src/Contract/Documents.antt =====
-- src/lib.rs, the entry points on documents, one at a time and in batches.
pub mod Register
pub mod Revoke
pub mod BatchRegister
pub mod BatchRevoke
use proof_stell_contract.Base.{
  ℕ, Bool, true, false, List, [], ◌∷◌, Option, none, some, ltb, ◌==◌, holds, not, is_some, length,
}
use proof_stell_contract.Contract.Host.{Host, DataKey, DocumentRecord, DocumentStatus}
use proof_stell_contract.Contract.Monad.{
  Env, Outcome, ok, err, ContractEvent, document_not_found, already_registered,
  only_issuer_can_revoke, already_revoked, batch_too_large, batch_empty, ◌>>=◌, ◌>>◌, pure, fail_if,
  require_auth, load_or, has, store, ledger_timestamp, publish,
}
use proof_stell_contract.Contract.RateLimit.{check_rate_limit}

abbrev pub is_active : DocumentStatus → Bool
is_active DocumentStatus.active = true
is_active DocumentStatus.revoked = false

abbrev pub max_batch_size : ℕ
max_batch_size = 20

pub record DocumentInfo (Address Hash : Type 0) : Type 0 where
  pub owner : Address
  pub document_hash : Hash

module _ ⦃host : Host⦄ where
  open host use {Address, Hash, get}

  -- What `register_document` does behind its guards, and a batch for each of its documents.
  unfoldable pub register_one : Address → Address → Hash → Env → Outcome (DocumentRecord Address)
  register_one issuer owner document_hash = do
    exists ← has (DataKey.document document_hash)
    fail_if exists already_registered
    timestamp ← ledger_timestamp
    let r : DocumentRecord Address = record {
      issuer = issuer;
      owner = owner;
      timestamp = timestamp;
      status = DocumentStatus.active;
    }
    store (DataKey.document document_hash) r
    publish (ContractEvent.document_registered issuer owner document_hash)
    pure r

  unfoldable pub register_document :
      Address → Address → Hash → Env → Outcome (DocumentRecord Address)
  unfolding register_one
  register_document issuer owner document_hash = do
    require_auth issuer
    check_rate_limit issuer issuer
    register_one issuer owner document_hash

  unfoldable pub get_document : Hash → Env → Option (DocumentRecord Address)
  get_document document_hash e = get (DataKey.document document_hash) e.store

  unfoldable pub verify_document : Hash → Env → Bool
  verify_document document_hash e = elim (get (DataKey.document document_hash) e.store) [
    | none ↦ false
    | some r ↦ is_active r.status
  ]

  unfoldable pub get_document_status : Hash → Env → Outcome DocumentStatus
  get_document_status document_hash e = elim (get (DataKey.document document_hash) e.store) [
    | none ↦ err document_not_found e
    | some r ↦ ok r.status e
  ]

  unfoldable pub document_exists : Hash → Env → Bool
  document_exists document_hash e = is_some (get (DataKey.document document_hash) e.store)

  -- What `revoke_document` does behind its guards, and a batch for each of its hashes.
  unfoldable pub revoke_one : Address → Hash → Env → Outcome (DocumentRecord Address)
  revoke_one issuer document_hash = do
    r ← load_or (DataKey.document document_hash) document_not_found
    fail_if (not (holds (host.address_eq r.issuer issuer))) only_issuer_can_revoke
    fail_if (not (is_active r.status)) already_revoked
    let r' : DocumentRecord Address = record r { status = DocumentStatus.revoked }
    store (DataKey.document document_hash) r'
    publish (ContractEvent.document_revoked issuer document_hash)
    pure r'

  unfoldable pub revoke_document : Address → Hash → Env → Outcome (DocumentRecord Address)
  unfolding revoke_one
  revoke_document issuer document_hash = do
    require_auth issuer
    check_rate_limit issuer issuer
    revoke_one issuer document_hash

  -- The loop of a batch: the rounds in order, the first failure ends it.
  unfoldable pub for_each :
      {A : Type 0}
      → (A → Env → Outcome (DocumentRecord Address))
      → List A
      → Env
      → Outcome (List (DocumentRecord Address))
  for_each body [] = pure []
  for_each body (x ∷ xs) = do r ← body x; rs ← for_each body xs; pure (r ∷ rs)

  unfoldable pub batch_register_documents :
      Address → List (DocumentInfo Address Hash) → Env → Outcome (List (DocumentRecord Address))
  batch_register_documents issuer documents = do
    require_auth issuer
    check_rate_limit issuer issuer
    fail_if (length documents == 0) batch_empty
    fail_if (ltb max_batch_size (length documents)) batch_too_large
    for_each (λ doc. register_one issuer doc.owner doc.document_hash) documents

  unfoldable pub batch_revoke_documents :
      Address → List Hash → Env → Outcome (List (DocumentRecord Address))
  batch_revoke_documents issuer document_hashes = do
    require_auth issuer
    check_rate_limit issuer issuer
    fail_if (length document_hashes == 0) batch_empty
    fail_if (ltb max_batch_size (length document_hashes)) batch_too_large
    for_each (revoke_one issuer) document_hashes
