-- ===== src/Contract/Tests.antt =====
-- The contract on a concrete host: runs, and the theorems at inputs that meet their hypotheses.
use proof_stell_contract.Base.{
  ℕ, ◌*◌, ◌+◌, ◌-◌, ◌≤◌, ◌≡◌, refl, ◌↔◌, true, false, none, some, List, [], ◌∷◌, ◌==◌, arith,
  ℕ_discrete, inl,
}
use proof_stell_contract.Contract.Host.{
  DocumentRecord, DocumentStatus, RateLimitConfig, RateLimitScope,
}
use proof_stell_contract.Contract.Memory.{memory, empty_cells, scope_eq}
use proof_stell_contract.Contract.Monad.{Env, ok, err, rate_limit_exceeded}
use proof_stell_contract.Contract.RateLimit.{
  check_scope, check_rate_limit, refilled, retry_after, get_rate_limit_retry_after,
  set_rate_limit_config,
}
use proof_stell_contract.Contract.Frames.{rejected, IsOk}
use proof_stell_contract.Contract.Documents.{
  DocumentInfo, register_document, revoke_document, batch_register_documents,
  batch_revoke_documents, register_one, revoke_one, for_each, get_document, verify_document,
}
use proof_stell_contract.Contract.Documents.Register.{
  Registered, register_document-Registered, register_document-succeeds_iff,
}
use proof_stell_contract.Contract.Documents.Revoke.{
  Revoked, revoked_record, revoke_document-Revoked,
}
use proof_stell_contract.Contract.Documents.BatchRegister.{
  AllRegistered, batch_register_documents-AllRegistered,
}
use proof_stell_contract.Contract.Documents.BatchRevoke.{
  AllRevoked, batch_revoke_documents-AllRevoked,
}
use proof_stell_contract.Contract.RateLimit.Burst.{Burst, first, next, Burst-bound}
use proof_stell_contract.Contract.Governance.{
  initialize, migrate, upgrade, set_feature_flag, get_admin, get_version, get_feature_flag,
}
use proof_stell_contract.Contract.History.{Call, invoke, settle, at, Reach, here, call}
use proof_stell_contract.Contract.History.Records.{Holds, Reach-Holds, revoke_document-for_good}
use proof_stell_contract.Contract.History.Governed.{Reach-admin_fixed}
use proof_stell_contract.Contract.History.Retries.{Reach-no_retry_after}

program : Unit {0}
unfolding register_document revoke_document batch_register_documents batch_revoke_documents
    register_one revoke_one for_each check_scope check_rate_limit refilled retry_after get_document
    verify_document ℕ_discrete scope_eq initialize migrate upgrade set_feature_flag get_admin
    get_version get_feature_flag invoke get_rate_limit_retry_after
program = tt

abbrev start : Env
start = record {
  store = empty_cells;
  events = [];
  upgrades = [];
  timestamp = 1000;
  authorized = λ a. a == 1;
}

-- Address 1 registers the document 7 for address 2, and revokes it.
abbrev registered : Env
registered = settle start (register_document 1 2 7 start)

abbrev record_7 : DocumentRecord ℕ
record_7 = record { issuer = 1; owner = 2; timestamp = 1000; status = DocumentStatus.active }

abbrev revoked : Env
revoked = settle registered (revoke_document 1 7 registered)

registered_runs : register_document 1 2 7 start ≡ ok record_7 registered
unfolding program
registered_runs = refl

revoked_runs : revoke_document 1 7 registered ≡ ok (revoked_record record_7) revoked
unfolding program
revoked_runs = refl

register_document-Registered_example : Registered 1 2 7 start record_7 registered
register_document-Registered_example = register_document-Registered 1 2 7 start registered_runs

revoke_document-Revoked_example :
    (r : DocumentRecord ℕ) × (revoked_record record_7 ≡ revoked_record r)
    × Revoked 1 7 registered r revoked
revoke_document-Revoked_example = revoke_document-Revoked 1 7 registered revoked_runs

register_document-succeeds_iff_example : IsOk (register_document 1 2 7 start) ↔ (
    (start.authorized 1 ≡ true) × IsOk (check_rate_limit 1 1 start) × (get_document 7 start ≡ none))
register_document-succeeds_iff_example = register_document-succeeds_iff 1 2 7 start

-- Later, with the authorisation of address 3, registering and revoking other documents.
abbrev later : Env
later = invoke (Call.register_document 3 3 8) (at 2000 (λ a. a == 3) revoked)

later_reached : Reach revoked later
later_reached = call 2000 (λ a. a == 3) (Call.register_document 3 3 8) here refl refl

revoke_document-for_good_example : verify_document 7 later ≡ false
revoke_document-for_good_example =
    revoke_document-for_good 1 7 registered revoked_runs later_reached

registered_later : Reach registered (invoke (Call.revoke_document 1 7) registered)
unfolding program
registered_later = call 1000 (λ a. a == 1) (Call.revoke_document 1 7) here refl refl

Reach-Holds_example : Holds 7 (revoked_record record_7) later
unfolding program
Reach-Holds_example = Reach-Holds 7 (revoked_record record_7) refl later_reached

-- A batch of two documents.
abbrev two_docs : List (DocumentInfo ℕ ℕ)
two_docs = record { owner = 2; document_hash = 10 } ∷ record { owner = 3; document_hash = 11 } ∷ []

abbrev batched : Env
batched = settle start (batch_register_documents 1 two_docs start)

abbrev batch_record : ℕ → DocumentRecord ℕ
batch_record owner = record record_7 { owner = owner }

batched_runs :
    batch_register_documents 1 two_docs start ≡ ok (batch_record 2 ∷ batch_record 3 ∷ []) batched
unfolding program
batched_runs = refl

batch_register_documents-AllRegistered_example :
    AllRegistered 1 two_docs start (batch_record 2 ∷ batch_record 3 ∷ []) batched
batch_register_documents-AllRegistered_example =
    batch_register_documents-AllRegistered 1 two_docs start batched_runs

abbrev both_revoked : Env
both_revoked = settle batched (batch_revoke_documents 1 (10 ∷ 11 ∷ []) batched)

both_revoked_runs :
    batch_revoke_documents 1 (10 ∷ 11 ∷ []) batched
    ≡ ok (revoked_record (batch_record 2) ∷ revoked_record (batch_record 3) ∷ []) both_revoked
unfolding program
both_revoked_runs = refl

batch_revoke_documents-AllRevoked_example : AllRevoked 1 (10 ∷ 11 ∷ []) batched both_revoked
batch_revoke_documents-AllRevoked_example =
    batch_revoke_documents-AllRevoked 1 (10 ∷ 11 ∷ []) batched both_revoked_runs

-- A hash that occurs twice fails the batch at its second document, and the host rolls back the first.
twice_rolled_back :
    get_document 10 (
      settle start (
        batch_register_documents 1
          (record { owner = 2; document_hash = 10 } ∷ record { owner = 3; document_hash = 10 } ∷ [])
          start))
    ≡ none
unfolding program
twice_rolled_back = refl

-- Governance: address 1 initialises the contract and sets a flag.
abbrev governed : Env
governed = settle start (initialize 1 start)

abbrev flagged : Env
flagged = settle governed (set_feature_flag 1 5 true governed)

flagged_runs : set_feature_flag 1 5 true governed ≡ ok tt flagged
unfolding program
flagged_runs = refl

governed_later : Reach governed (invoke (Call.migrate 3) (at 3000 (λ a. a == 3) governed))
governed_later = call 3000 (λ a. a == 3) (Call.migrate 3) here refl refl

Reach-admin_fixed_example :
    (get_version (invoke (Call.migrate 3) (at 3000 (λ a. a == 3) governed)) ≡ 1)
    × (get_admin (invoke (Call.migrate 3) (at 3000 (λ a. a == 3) governed)) ≡ some 1)
unfolding program
Reach-admin_fixed_example = Reach-admin_fixed 1 refl refl governed_later

-- One call a second, with bursts of two: the third call in a second is rejected.
abbrev slow : RateLimitConfig
slow = record {
  per_address_per_second = 1;
  per_address_burst = 2;
  per_issuer_per_second = 1;
  per_issuer_burst = 2;
}

abbrev limited : Env
limited = settle governed (set_rate_limit_config 1 slow governed)

abbrev one_call : Env
one_call = settle limited (check_rate_limit 1 1 limited)

abbrev two_calls : Env
two_calls = settle one_call (check_rate_limit 1 1 one_call)

third_rejected :
    check_rate_limit 1 1 two_calls
    ≡ err rate_limit_exceeded (rejected slow (RateLimitScope.address 1) two_calls)
unfolding program set_rate_limit_config
third_rejected = refl

two_calls-Burst : Burst slow (RateLimitScope.address 1) 2 1000 1000 two_calls
unfolding program set_rate_limit_config
two_calls-Burst =
    next one_call (first limited refl refl refl (1, 1, inl refl, refl, refl)) refl (omega arith)
      refl refl (1, 1, inl refl, refl, refl)

Burst-bound_example : 2 ≤ 2 + (1000 - 1000) * 1
Burst-bound_example = Burst-bound slow (RateLimitScope.address 1) two_calls-Burst

started : (scope : RateLimitScope ℕ) → get_rate_limit_retry_after scope start ≡ none
unfolding program
started scope = refl

Reach-no_retry_after_example :
    get_rate_limit_retry_after
      (RateLimitScope.address 1)
      (invoke (Call.register_document 1 2 9) (at 1000 (λ a. a == 1) start))
    ≡ none
Reach-no_retry_after_example =
    Reach-no_retry_after started
      (call 1000 (λ a. a == 1) (Call.register_document 1 2 9) here refl refl)
      (RateLimitScope.address 1)
