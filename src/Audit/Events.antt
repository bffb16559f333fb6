-- ===== src/Audit/Events.antt =====
-- src/event.rs, `ContractEventContext`, `EventIngestor` and `EventStore`; src/error.rs, the error that
-- they return. A text is a list of bytes. The JSON payload and metadata, the random identifier and the
-- time of an event are left out: no operation here reads them.
use proof_stell_contract.Base.{
  ℕ, ◌+◌, ◌==◌, leb, if◌then◌else◌, Bool, true, false, holds, unwrap_or, Option, none, some, List,
  [], ◌∷◌, ◌++◌, length, list_eq, ℕ_discrete,
}
use proof_stell_contract.Base.Words.{saturating_add_u64, saturating_mul_u64}
use proof_stell_contract.Base.Assoc.{find, insert}

abbrev pub Text : Type 0
Text = List ℕ

unfoldable pub text_eq : Discrete Text
text_eq = list_eq ℕ_discrete

pub data EventSource : Type 0 where
  service : EventSource
  contract : EventSource

pub record ContractEventContext : Type 0 where
  pub transaction_hash : Text
  pub ledger_sequence : ℕ
  pub event_index : ℕ
  pub document_hash : Text

-- One constructor for each message of `InvalidContractEventContext`.
pub data AuditError : Type 0 where
  transaction_hash_empty : AuditError
  document_hash_empty : AuditError
  ledger_sequence_zero : AuditError
  duplicate : Text → AuditError
  ordering_failure : Text → ℕ → ℕ → AuditError

-- `trim().is_empty()`, by the white space of the standard library.
module _ (is_blank : Text → Bool) where
  -- `none` for `Ok(())`.
  unfoldable pub validate : ContractEventContext → Option AuditError
  validate c =
      if is_blank c.transaction_hash
      then some AuditError.transaction_hash_empty
      else if is_blank c.document_hash
      then some AuditError.document_hash_empty
      else if c.ledger_sequence == 0
      then some AuditError.ledger_sequence_zero
      else none

unfoldable pub sequence_of : ContractEventContext → ℕ
sequence_of c = saturating_add_u64 (saturating_mul_u64 c.ledger_sequence 1000) c.event_index

pub record Event : Type 0 where
  pub aggregate_id : Text
  pub event_type : Text
  pub sequence : ℕ
  pub actor : Text
  pub idempotency_key : Text
  pub source : EventSource

abbrev pub with_sequence : ℕ → Event → Event
with_sequence n e = record e { sequence = n }

pub data EventInvalidation : Type 0 where
  document_registered : Text → EventInvalidation
  document_revoked : Text → EventInvalidation
  document_verified : Text → EventInvalidation

pub record EventIngestor : Type 0 where
  -- A set: the newest key first.
  pub seen_keys : List Text
  pub last_sequence : List (Text × ℕ)
  -- What the broadcast channel was sent, newest first, and the backlog gauge.
  pub sent : List EventInvalidation
  pub backlog : ℕ

abbrev pub new_ingestor : EventIngestor
new_ingestor = record { seen_keys = []; last_sequence = []; sent = []; backlog = 0 }

abbrev pub seen : Text → List Text → Bool
seen k [] = false
seen k (j ∷ ks) = if holds (text_eq k j) then true else seen k ks

-- `DocumentRegistered`, `DocumentRevoked` and `DocumentVerified`.
abbrev document : Text
document = 68 ∷ 111 ∷ 99 ∷ 117 ∷ 109 ∷ 101 ∷ 110 ∷ 116 ∷ []

abbrev pub event_document_registered : Text
event_document_registered =
    document ++ 82 ∷ 101 ∷ 103 ∷ 105 ∷ 115 ∷ 116 ∷ 101 ∷ 114 ∷ 101 ∷ 100 ∷ []

abbrev pub event_document_revoked : Text
event_document_revoked = document ++ 82 ∷ 101 ∷ 118 ∷ 111 ∷ 107 ∷ 101 ∷ 100 ∷ []

abbrev pub event_document_verified : Text
event_document_verified = document ++ 86 ∷ 101 ∷ 114 ∷ 105 ∷ 102 ∷ 105 ∷ 101 ∷ 100 ∷ []

abbrev invalidation : Event → List EventInvalidation
invalidation e =
    if holds (text_eq e.event_type event_document_registered)
    then EventInvalidation.document_registered e.aggregate_id ∷ []
    else if holds (text_eq e.event_type event_document_revoked)
    then EventInvalidation.document_revoked e.aggregate_id ∷ []
    else if holds (text_eq e.event_type event_document_verified)
    then EventInvalidation.document_verified e.aggregate_id ∷ []
    else []

abbrev pub accept : Event → EventIngestor → EventIngestor
accept e g = record g {
  last_sequence = insert text_eq e.aggregate_id e.sequence g.last_sequence;
  sent = invalidation e ++ g.sent;
  backlog = g.backlog + 1;
}

-- Behind the check for a duplicate.
abbrev in_order : Event → EventIngestor → Option ℕ → Option AuditError × EventIngestor
in_order e g none = (none, accept e g)
in_order e g (some last) =
    if leb e.sequence last
    then (some (AuditError.ordering_failure e.aggregate_id e.sequence last), g)
    else (none, accept e g)

-- `none` for `Ok(())`. The key is recorded before the order is checked.
unfoldable pub ingest : Event → EventIngestor → Option AuditError × EventIngestor
ingest e g =
    if seen e.idempotency_key g.seen_keys
    then (some (AuditError.duplicate e.idempotency_key), g)
    else in_order e (record g { seen_keys = e.idempotency_key ∷ g.seen_keys })
        (find text_eq e.aggregate_id g.last_sequence)

-- The events of an aggregate, oldest first.
abbrev pub EventStore : Type 0
EventStore = List (Text × List Event)

unfoldable pub append : Text → Event → EventStore → Event × EventStore
append aggregate_id event store =
    let events = unwrap_or (find text_eq aggregate_id store) [] in
    let finalized : Event = record event {
      sequence = length events + 1;
      aggregate_id = aggregate_id;
    } in
    (finalized, insert text_eq aggregate_id (events ++ finalized ∷ []) store)

unfoldable pub get_history : Text → EventStore → Option (List Event)
get_history aggregate_id store = find text_eq aggregate_id store

abbrev last : List Event → Option Event
last [] = none
last (e ∷ []) = some e
last (_ ∷ e ∷ es) = last (e ∷ es)

unfoldable pub get_latest_sequence : Text → EventStore → Option ℕ
get_latest_sequence aggregate_id store = elim (find text_eq aggregate_id store) [
  | none ↦ none
  | some events ↦ elim (last events) [ none ↦ none | some e ↦ some e.sequence ]
]

unfoldable pub count : Text → EventStore → ℕ
count aggregate_id store = length (unwrap_or (find text_eq aggregate_id store) [])
