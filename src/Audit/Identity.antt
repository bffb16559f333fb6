-- ===== src/Audit/Identity.antt =====
-- src/event.rs, `Event::from_contract_event`: which contract events share a key.
use proof_stell_contract.Base.{
  ℕ, ◌^◌, ◌<◌, ◌≡◌, ◌↔◌, inr, sym, ap, ◌∙◌, arith, Bool, Option, none, some, [], ◌++◌,
}
use proof_stell_contract.Audit.Decimal.{show-injective, show-NoColon, NoColon, split_at_colon}
use proof_stell_contract.Audit.Events.{
  Text, ContractEventContext, AuditError, Event, EventSource, sequence_of,
}
use proof_stell_contract.Audit.Keys.{key_prefix, idempotency_key_of, from_contract_event, created}

-- The position is made of machine words, and neither the transaction nor the aggregate has a colon.
pub record Plain (c : ContractEventContext) (aggregate_id : Text) : Type 0 where
  pub ledger : c.ledger_sequence < 2 ^ 64
  pub index : c.event_index < 2 ^ 32
  pub transaction : NoColon c.transaction_hash
  pub aggregate : NoColon aggregate_id

-- What an event is of.
abbrev pub position : ContractEventContext → Text → Text → Text × ℕ × ℕ × Text × Text
position c aggregate_id event_type =
    (c.transaction_hash, c.ledger_sequence, c.event_index, aggregate_id, event_type)

without_prefix : (x y : Text) → key_prefix ++ x ≡ key_prefix ++ y → x ≡ y
without_prefix x y p = cc p

module _ (c d : ContractEventContext) (a b t u : Text) where
  key-injective :
      Plain c a
      → Plain d b
      → idempotency_key_of c a t ≡ idempotency_key_of d b u
      → position c a t ≡ position d b u
  unfolding idempotency_key_of
  key-injective h k p =
      let (transaction, p₁) =
        split_at_colon _ _ _ _ h.transaction k.transaction (without_prefix _ _ p) in
      let (ledger, p₂) =
        split_at_colon _ _ _ _ (show-NoColon c.ledger_sequence) (show-NoColon d.ledger_sequence)
          p₁ in
      let (index, p₃) =
        split_at_colon _ _ _ _ (show-NoColon c.event_index) (show-NoColon d.event_index) p₂ in
      let (aggregate, kind) = split_at_colon _ _ _ _ h.aggregate k.aggregate p₃ in
      let ledger' = show-injective _ _ h.ledger k.ledger ledger in
      let index' =
        show-injective c.event_index d.event_index (let l = h.index in omega arith)
          (let l = k.index in omega arith) index in
      cc (transaction, ledger', index', aggregate, kind)

of_position :
    (c d : ContractEventContext) (a b t u : Text)
    → position c a t ≡ position d b u
    → idempotency_key_of c a t ≡ idempotency_key_of d b u
unfolding idempotency_key_of
of_position c d a b t u p = ap key p
  where
    key : Text × ℕ × ℕ × Text × Text → Text
    key (transaction, ledger, index, aggregate, kind) =
        idempotency_key_of
          (record {
            transaction_hash = transaction;
            ledger_sequence = ledger;
            event_index = index;
            document_hash = [];
          })
          aggregate kind

created-key :
    (a t x : Text) (c : ContractEventContext) (e : Event) (r : Option AuditError)
    → created a t x c r ≡ inr e
    → e.idempotency_key ≡ idempotency_key_of c a t
created-key a t x c e none p =
    let q : record {
      aggregate_id = a;
      event_type = t;
      sequence = sequence_of c;
      actor = x;
      idempotency_key = idempotency_key_of c a t;
      source = EventSource.contract;
    }
        ≡ e =
      cc p in
    sym (ap (λ (e : Event). e.idempotency_key) q)
created-key a t x c e (some error) p = cc p

-- Two audit events that are made of contract events have the same key exactly where they are of the same
-- transaction, ledger, index, aggregate and type: as long as no transaction hash and no aggregate has a
-- colon, a contract event that is read again is known by its key, and no other is taken for it.
pub from_contract_event-same_key_iff :
    (is_blank : Text → Bool) (c d : ContractEventContext) (a b t u x y : Text) (e f : Event)
    → Plain c a
    → Plain d b
    → from_contract_event is_blank a t x c ≡ inr e
    → from_contract_event is_blank b u y d ≡ inr f
    → (e.idempotency_key ≡ f.idempotency_key) ↔ (position c a t ≡ position d b u)
unfolding from_contract_event
from_contract_event-same_key_iff is_blank c d a b t u x y e f h k p q =
    let first = created-key a t x c e _ p in
    let second = created-key b u y d f _ q in
    (
      λ same. key-injective c d a b t u h k (sym first ∙ same ∙ second),
      λ same. first ∙ of_position c d a b t u same ∙ sym second,
    )
