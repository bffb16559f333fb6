-- ===== src/Audit/Ordering.antt =====
-- src/event.rs, `EventIngestor` and `EventStore`: the order of what is accepted, and the numbering of
-- what is stored.
use mathlib.Core.Option.{some-injective}
use proof_stell_contract.Base.{
  ℕ, ◌+◌, ◌≤◌, ◌<◌, ◌≡◌, refl, sym, ap, subst, ◌∙◌, arith, leb, leb→le, ◌↔◌, All, is_some,
  if◌then◌else◌, unwrap_or, true, false, Bool-cases, Option-cases, inl, inr, none, some, List, [],
  ◌∷◌, ◌++◌, length,
}
use proof_stell_contract.Base.Assoc.{find, insert, find-insert_self, find-insert_ne}
use proof_stell_contract.Audit.Events.{
  Text, text_eq, Event, EventIngestor, AuditError, seen, accept, ingest, EventStore, append,
  get_history,
}

ingest-seen :
    (e : Event) (g : EventIngestor)
    → seen e.idempotency_key g.seen_keys ≡ true
    → ingest e g ≡ (some (AuditError.duplicate e.idempotency_key), g)
unfolding ingest
ingest-seen e g p = rw p refl

-- What an ingestion can do: reject a duplicate, reject an event that is not the latest of its
-- aggregate, or accept the event.
data IngestCase (e : Event) (g : EventIngestor) : Type 0 where
  repeated :
      seen e.idempotency_key g.seen_keys ≡ true
      → ingest e g ≡ (some (AuditError.duplicate e.idempotency_key), g)
      → IngestCase e g
  late :
      (m : ℕ)
      → seen e.idempotency_key g.seen_keys ≡ false
      → find text_eq e.aggregate_id g.last_sequence ≡ some m
      → e.sequence ≤ m
      → ingest e g ≡ (
        some (AuditError.ordering_failure e.aggregate_id e.sequence m),
        record g { seen_keys = e.idempotency_key ∷ g.seen_keys },
      )
      → IngestCase e g
  accepted :
      seen e.idempotency_key g.seen_keys ≡ false
      → ((m : ℕ) → find text_eq e.aggregate_id g.last_sequence ≡ some m → m < e.sequence)
      → ingest e g ≡ (none, accept e (record g { seen_keys = e.idempotency_key ∷ g.seen_keys }))
      → IngestCase e g

ingest-IngestCase : (e : Event) (g : EventIngestor) → IngestCase e g
unfolding ingest
ingest-IngestCase e g = elim (Bool-cases (seen e.idempotency_key g.seen_keys)) [
  | inl p ↦ repeated p (rw p refl)
  | inr p ↦ elim (Option-cases (find text_eq e.aggregate_id g.last_sequence)) [
    | inl q ↦ accepted p (λ m z. cc (sym q ∙ z)) (rw (p, q) refl)
    | inr (m, q) ↦ elim (Bool-cases (leb e.sequence m)) [
      | inl r ↦ late m p q (leb→le _ _ r) (rw (p, q, r) refl)
      | inr r ↦
          accepted p
            (λ n z. subst (λ x. x < e.sequence) (some-injective _ _ (sym q ∙ z)) (ground arith))
            (rw (p, q, r) refl)
    ]
  ]
]

-- An event is accepted exactly when its idempotency key is new and its sequence is above the last one
-- accepted for its aggregate, if there is one.
pub ingest-accepts_iff :
    (e : Event) (g : EventIngestor)
    → ((ingest e g).0 ≡ none) ↔ (
        (seen e.idempotency_key g.seen_keys ≡ false)
        × ((m : ℕ) → find text_eq e.aggregate_id g.last_sequence ≡ some m → m < e.sequence))
ingest-accepts_iff e g = elim (ingest-IngestCase e g) [
  | repeated p q ↦ ((λ z. cc (sym (ap (λ r. r.0) q) ∙ z)), λ z. cc (sym p ∙ z.0))
  | late m p f h q ↦
      ((λ z. cc (sym (ap (λ r. r.0) q) ∙ z)), λ z. absurd (let k = z.1 m f in omega arith))
  | accepted p h q ↦ ((λ _. (p, h)), λ _. ap (λ r. r.0) q)
]

seen_now : (k j : Text) (ks : List Text) → k ≡ j → seen k (j ∷ ks) ≡ true
seen_now k j ks p = ground arith

-- Once an event was given to the ingestor, accepted or not, every event with its key is a duplicate.
pub ingest-again :
    (e f : Event) (g : EventIngestor)
    → f.idempotency_key ≡ e.idempotency_key
    → (ingest f (ingest e g).1).0 ≡ some (AuditError.duplicate f.idempotency_key)
ingest-again e f g same = ap (λ r. r.0) (ingest-seen f _ (known (ingest-IngestCase e g)))
  where
    known : IngestCase e g → seen f.idempotency_key (ingest e g).1.seen_keys ≡ true
    known (repeated p q) = rw (q, same) p
    known (late m p z h q) = rw q (seen_now f.idempotency_key e.idempotency_key g.seen_keys same)
    known (accepted p h q) = rw q (seen_now f.idempotency_key e.idempotency_key g.seen_keys same)

-- The events of a sequence that are accepted, in order.
unfoldable pub accepted_of : List Event → EventIngestor → List Event
accepted_of [] g = []
accepted_of (e ∷ es) g =
    let r = ingest e g in let rest = accepted_of es r.1 in if is_some r.0 then rest else e ∷ rest

-- The sequences of each aggregate strictly increase.
abbrev pub After : Event → Event → Type 0
After e f = f.aggregate_id ≡ e.aggregate_id → e.sequence < f.sequence

abbrev pub Increasing : List Event → Type 0
Increasing [] = Unit
Increasing (e ∷ es) = All (After e) es × Increasing es

-- The last sequence of the aggregate is `n` or above.
Reached : Text → ℕ → EventIngestor → Type 0
Reached a n g = (m : ℕ) × (find text_eq a g.last_sequence ≡ some m) × (n ≤ m)

ingest-Reached :
    (a : Text) (n : ℕ) (e : Event) (g : EventIngestor) → Reached a n g → Reached a n (ingest e g).1
unfolding Reached
ingest-Reached a n e g (m, p, h) = elim (ingest-IngestCase e g) [
  | repeated _ q ↦ rw q (m, p, h)
  | late _ _ _ _ q ↦ rw q (m, p, h)
  | accepted _ above q ↦ rw q (elim (text_eq a e.aggregate_id) [
    | yes z ↦
        let k = above m (subst (λ x. find text_eq x g.last_sequence ≡ some m) z p) in
        (
          e.sequence,
          subst
              (λ x.
                find text_eq x (insert text_eq e.aggregate_id e.sequence g.last_sequence)
                ≡ some e.sequence)
              (sym z) (find-insert_self text_eq e.aggregate_id e.sequence g.last_sequence),
          omega arith,
        )
    | no z ↦ (m, find-insert_ne text_eq a e.aggregate_id e.sequence g.last_sequence z ∙ p, h)
  ])
]

accepted_of-After :
    (d : Event) (es : List Event) (g : EventIngestor)
    → Reached d.aggregate_id d.sequence g
    → All (After d) (accepted_of es g)
unfolding accepted_of Reached
accepted_of-After d [] g r = tt
accepted_of-After d (e ∷ es) g r =
    let later =
      accepted_of-After d es (ingest e g).1 (ingest-Reached d.aggregate_id d.sequence e g r) in
    elim (ingest-IngestCase e g) [
      | repeated _ q ↦ rw (ap (λ x. is_some x.0) q) later
      | late _ _ _ _ q ↦ rw (ap (λ x. is_some x.0) q) later
      | accepted _ above q ↦
          let (m, p, h) = r in
          rw (ap (λ x. is_some x.0) q) (
            (λ same.
                let k =
                  above m (subst (λ x. find text_eq x g.last_sequence ≡ some m) (sym same) p) in
                omega arith),
            later,
          )
    ]

-- However events are given to the ingestor, the sequences of those it accepts strictly increase within
-- each aggregate.
pub accepted_of-Increasing : (es : List Event) (g : EventIngestor) → Increasing (accepted_of es g)
unfolding accepted_of Reached
accepted_of-Increasing [] g = tt
accepted_of-Increasing (e ∷ es) g =
    let rest = accepted_of-Increasing es (ingest e g).1 in
    elim (ingest-IngestCase e g) [
      | repeated _ q ↦ rw (ap (λ x. is_some x.0) q) rest
      | late _ _ _ _ q ↦ rw (ap (λ x. is_some x.0) q) rest
      | accepted _ _ q ↦
          let here : Reached e.aggregate_id e.sequence (ingest e g).1 = (
            e.sequence,
            subst (λ r. find text_eq e.aggregate_id r.1.last_sequence ≡ some e.sequence) (sym q)
                (find-insert_self text_eq e.aggregate_id e.sequence g.last_sequence),
            omega arith,
          ) in
          rw (ap (λ x. is_some x.0) q) (accepted_of-After e es (ingest e g).1 here, rest)
    ]

-- The numbers `n + 1`, `n + 2` and so on, each event under the aggregate.
abbrev Numbered : Text → ℕ → List Event → Type 0
Numbered a n [] = Unit
Numbered a n (e ∷ es) = (e.aggregate_id ≡ a) × (e.sequence ≡ n + 1) × Numbered a (n + 1) es

pub record History (store : EventStore) : Type 0 where
  pub numbered : (a : Text) → Numbered a 0 (unwrap_or (get_history a store) [])

Numbered-append :
    (a : Text) (n : ℕ) (es : List Event) (e : Event)
    → Numbered a n es
    → e.aggregate_id ≡ a
    → e.sequence ≡ n + length es + 1
    → Numbered a n (es ++ e ∷ [])
Numbered-append a n [] e h p q = (p, q ∙ omega arith, tt)
Numbered-append a n (f ∷ es) e (p, q, h) r z =
    (p, q, Numbered-append a (n + 1) es e h r (z ∙ omega arith))

-- Appending keeps every history numbered from 1 without a gap, whatever numbers and aggregates the
-- events came with.
pub append-History :
    (a : Text) (e : Event) (store : EventStore) → History store → History (append a e store).1
unfolding append get_history
append-History a e store h = record {
  numbered = λ b. elim (text_eq b a) [
    | yes p ↦
        subst (λ x. Numbered x 0 (unwrap_or (find text_eq x (append a e store).1) [])) (sym p)
          (rw
            (find-insert_self text_eq a
              (unwrap_or (find text_eq a store) [] ++ (append a e store).0 ∷ []) store)
            (Numbered-append a 0 (unwrap_or (find text_eq a store) []) _ (h.numbered a) refl
              (omega arith)))
    | no n ↦ rw (find-insert_ne text_eq b a _ store n) (h.numbered b)
  ];
}
