-- ===== src/Audit/Keys.antt =====
-- src/event.rs, `ContractEventContext::idempotency_key`, and how an `Event` is made. The identifier is an
-- argument where it is the key; else it is left out, with the time, the payload and the metadata.
use proof_stell_contract.Base.{Bool, Option, none, some, ◌⊎◌, inl, inr, [], ◌∷◌, ◌++◌}
use proof_stell_contract.Audit.Decimal.{show, colon}
use proof_stell_contract.Audit.Events.{
  Text, EventSource, ContractEventContext, AuditError, Event, validate, sequence_of,
}

-- `contract:`
abbrev pub key_prefix : Text
key_prefix = 99 ∷ 111 ∷ 110 ∷ 116 ∷ 114 ∷ 97 ∷ 99 ∷ 116 ∷ 58 ∷ []

unfoldable pub idempotency_key_of : ContractEventContext → Text → Text → Text
idempotency_key_of c aggregate_id event_type =
    key_prefix
    ++ (c.transaction_hash
        ++ (colon
            ∷ (show c.ledger_sequence
                ++ (colon
                    ∷ (show c.event_index ++ (colon ∷ (aggregate_id ++ (colon ∷ event_type))))))))

abbrev pub created :
    Text → Text → Text → ContractEventContext → Option AuditError → AuditError ⊎ Event
created aggregate_id event_type actor c (some error) = inl error
created aggregate_id event_type actor c none = inr (record {
  aggregate_id = aggregate_id;
  event_type = event_type;
  sequence = sequence_of c;
  actor = actor;
  idempotency_key = idempotency_key_of c aggregate_id event_type;
  source = EventSource.contract;
})

-- An error or the event.
unfoldable pub from_contract_event :
    (Text → Bool) → Text → Text → Text → ContractEventContext → AuditError ⊎ Event
from_contract_event is_blank aggregate_id event_type actor c =
    created aggregate_id event_type actor c (validate is_blank c)

abbrev pub new_event : Text → Text → Text → Text → Event
new_event id aggregate_id event_type actor = record {
  aggregate_id = aggregate_id;
  event_type = event_type;
  sequence = 1;
  actor = actor;
  idempotency_key = id;
  source = EventSource.service;
}

abbrev pub with_idempotency_key : Text → Event → Event
with_idempotency_key key e = record e { idempotency_key = key }

abbrev pub with_source : EventSource → Event → Event
with_source source e = record e { source = source }
