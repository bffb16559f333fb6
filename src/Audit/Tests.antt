-- ===== src/Audit/Tests.antt =====
-- Audit events at concrete inputs.
use proof_stell_contract.Base.{
  ℕ, ◌≡◌, ◌↔◌, inr, arith, Bool, false, refl, [], ◌∷◌, ℕ_discrete, list_eq,
}
use proof_stell_contract.Base.Assoc.{find, insert, remove}
use proof_stell_contract.Audit.Events.{
  Text, text_eq, Event, EventSource, new_ingestor, ingest, append, get_history,
  ContractEventContext, validate, sequence_of,
}
use proof_stell_contract.Audit.Ordering.{accepted_of, Increasing, accepted_of-Increasing}
use proof_stell_contract.Audit.Decimal.{NoColon, show_before}
use proof_stell_contract.Audit.Keys.{idempotency_key_of, from_contract_event}
use proof_stell_contract.Audit.Identity.{Plain, position, from_contract_event-same_key_iff}

audit : Unit {0}
unfolding text_eq list_eq ℕ_discrete find insert remove ingest append get_history accepted_of
audit = tt

-- Two events of one document, and a third that comes late.
abbrev event : ℕ → ℕ → Event
event key n = record {
  aggregate_id = 1 ∷ [];
  event_type = [];
  sequence = n;
  actor = [];
  idempotency_key = key ∷ [];
  source = EventSource.contract;
}

late_is_rejected :
    accepted_of (event 1 5 ∷ event 2 7 ∷ event 3 6 ∷ []) new_ingestor ≡ event 1 5 ∷ event 2 7 ∷ []
unfolding audit
late_is_rejected = refl

accepted_of-Increasing_example :
    Increasing (accepted_of (event 1 5 ∷ event 2 7 ∷ event 3 6 ∷ []) new_ingestor)
accepted_of-Increasing_example =
    accepted_of-Increasing (event 1 5 ∷ event 2 7 ∷ event 3 6 ∷ []) new_ingestor

-- The third event of ledger 42, in the transaction `a`, of the document `d`.
abbrev context : ContractEventContext
context = record {
  transaction_hash = b'a' ∷ [];
  ledger_sequence = 42;
  event_index = 3;
  document_hash = b'd' ∷ [];
}

abbrev never_blank : Text → Bool
never_blank text = false

abbrev revocation : Event
revocation = record {
  aggregate_id = b'd' ∷ [];
  event_type = b'r' ∷ [];
  sequence = 42003;
  actor = [];
  idempotency_key = idempotency_key_of context (b'd' ∷ []) (b'r' ∷ []);
  source = EventSource.contract;
}

revoked : from_contract_event never_blank (b'd' ∷ []) (b'r' ∷ []) [] context ≡ inr revocation
unfolding from_contract_event validate sequence_of
revoked = refl

context-Plain : Plain context (b'd' ∷ [])
unfolding NoColon
context-Plain = record {
  ledger = omega arith;
  index = omega arith;
  transaction = (λ p. omega arith, tt);
  aggregate = (λ p. omega arith, tt);
}

from_contract_event-same_key_iff_example :
    (revocation.idempotency_key ≡ revocation.idempotency_key)
    ↔ (position context (b'd' ∷ []) (b'r' ∷ []) ≡ position context (b'd' ∷ []) (b'r' ∷ []))
from_contract_event-same_key_iff_example =
    from_contract_event-same_key_iff never_blank context context (b'd' ∷ []) (b'd' ∷ []) (b'r' ∷ [])
      (b'r' ∷ []) [] [] revocation revocation context-Plain context-Plain revoked revoked

-- With a colon in the aggregate, two events share a key.
colons_collide :
    idempotency_key_of context (b'd' ∷ b':' ∷ b'e' ∷ []) (b'r' ∷ [])
    ≡ idempotency_key_of context (b'd' ∷ []) (b'e' ∷ b':' ∷ b'r' ∷ [])
unfolding idempotency_key_of show_before
colons_collide = refl
