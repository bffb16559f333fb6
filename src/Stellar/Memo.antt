-- ===== src/Stellar/Memo.antt =====
-- src/stellar.rs, `parse_horizon_transaction`: which transaction of a body is taken.
use proof_stell_contract.Base.{
  ℕ, ◌≡◌, ◌⊎◌, refl, sym, ap, ◌∙◌, arith, inl, inr, true, false, Bool-cases, Option-cases, some,
  unwrap_or, List, [], ◌∷◌, ◌++◌, All, map,
}
use mathlib.Core.Option.{some-injective}
use proof_stell_contract.Hash.Tools.{Text, Outcome, >>=-returns, to_lowercase}
use proof_stell_contract.Hash.Canonical
use proof_stell_contract.Hash.Canonical.{
  CanonicalHash, to_stellar_memo_hash, to_stellar_memo_base64,
}
use proof_stell_contract.Stellar.Client.{
  TransactionRecord, HorizonTransaction, Horizon, memo_text, memo_hash, same_text, to_option,
}
use proof_stell_contract.Stellar.Answers.{
  encoded, expected_hash_b64, matches_type, memo_matches, first_match,
}

pub to_option-some {ℓ} :
    {A : Type ℓ} (m : Outcome A) (a : A) → to_option m ≡ some a → m ≡ Outcome.ok a
to_option-some (Outcome.ok b) a p = ap Outcome.ok (some-injective b a p)
to_option-some (Outcome.err e) a p = cc p
to_option-some Outcome.panic a p = cc p

base64-inverts :
    (base64 : List ℕ → Text) (c : CanonicalHash) (b64 : Text)
    → to_stellar_memo_base64 base64 c ≡ Outcome.ok b64
    → (bytes : List ℕ) × (to_stellar_memo_hash c ≡ Outcome.ok bytes) × (b64 ≡ base64 bytes)
unfolding to_stellar_memo_base64
base64-inverts base64 c b64 p =
    let (bytes, q, r) =
      >>=-returns (to_stellar_memo_hash c) (λ bytes. Outcome.ok (base64 bytes)) b64 p in
    (bytes, q, cc r)

module _ (h : Horizon) where
  -- The memo is the hash as a text, whatever its case, or the Base64 of its bytes.
  abbrev pub Matches : Text → HorizonTransaction → Type 0
  Matches hash tx =
      ((tx.memo_type ≡ some memo_text)
        × (map to_lowercase (unwrap_or tx.memo []) ≡ map to_lowercase hash))
      ⊎ ((tx.memo_type ≡ some memo_hash)
          × ((c : CanonicalHash) × (bytes : List ℕ) × (Canonical.new h.subtle hash ≡ Outcome.ok c)
              × (to_stellar_memo_hash c ≡ Outcome.ok bytes)
              × (unwrap_or tx.memo [] ≡ h.base64 bytes)))

  same_text-eq : (a b : Text) → same_text a b ≡ true → a ≡ b
  same_text-eq a b p = ground arith

  b64-bytes :
      (hash b64 : Text)
      → expected_hash_b64 h hash ≡ some b64
      → (c : CanonicalHash) × (bytes : List ℕ) × (Canonical.new h.subtle hash ≡ Outcome.ok c)
        × (to_stellar_memo_hash c ≡ Outcome.ok bytes)
        × (b64 ≡ h.base64 bytes)
  unfolding expected_hash_b64
  b64-bytes hash b64 p = elim (Option-cases (to_option (Canonical.new h.subtle hash))) [
    | inl q ↦ cc (sym p ∙ ap (encoded h) q)
    | inr (c, q) ↦
        let r =
          to_option-some (to_stellar_memo_base64 h.base64 c) b64 (sym (ap (encoded h) q) ∙ p) in
        let (bytes, decoded, e) = base64-inverts h.base64 c b64 r in
        (c, bytes, to_option-some (Canonical.new h.subtle hash) c q, decoded, e)
  ]

  matches_type-Matches :
      (hash : Text) (tx : HorizonTransaction) (memo_type : Text)
      → tx.memo_type ≡ some memo_type
      → matches_type h hash (unwrap_or tx.memo []) (some memo_type) ≡ true
      → Matches hash tx
  matches_type-Matches hash tx memo_type p q = elim (Bool-cases (same_text memo_type memo_text)) [
    | inl t ↦
        inl (p ∙ ap some (same_text-eq memo_type memo_text t), same_text-eq _ _ (ground arith))
    | inr t ↦ elim (Bool-cases (same_text memo_type memo_hash)) [
      | inl u ↦ elim (Option-cases (expected_hash_b64 h hash)) [
        | inl v ↦ absurd (ground arith)
        | inr (b64, v) ↦
            let (c, bytes, fresh, decoded, e) = b64-bytes hash b64 v in
            inr (
              p ∙ ap some (same_text-eq memo_type memo_hash u),
              (
                c,
                bytes,
                fresh,
                decoded,
                sym (same_text-eq b64 (unwrap_or tx.memo []) (ground arith)) ∙ e,
              ),
            )
      ]
      | inr u ↦ absurd (ground arith)
    ]
  ]

  memo_matches-Matches :
      (hash : Text) (tx : HorizonTransaction) → memo_matches h hash tx ≡ true → Matches hash tx
  unfolding memo_matches
  memo_matches-Matches hash tx p = elim (Option-cases tx.memo_type) [
    | inl q ↦ absurd (ground arith)
    | inr (memo_type, q) ↦ matches_type-Matches hash tx memo_type q (ground arith)
  ]

  abbrev pub Found : Text → List HorizonTransaction → TransactionRecord → Type 0
  Found hash records found =
      (before : List HorizonTransaction) × (tx : HorizonTransaction) × (after : List
        HorizonTransaction)
      × (records ≡ before ++ (tx ∷ after))
      × All (λ t. memo_matches h hash t ≡ false) before
      × Matches hash tx
      × (found.transaction_id ≡ tx.id)

  found_id :
      (hash : Text) (tx : HorizonTransaction) (records : List HorizonTransaction)
      (found : TransactionRecord)
      → memo_matches h hash tx ≡ true
      → first_match h hash (tx ∷ records) ≡ some found
      → found.transaction_id ≡ tx.id
  unfolding first_match
  found_id hash tx records found q p = ground arith

  pub first_match-Found :
      (hash : Text) (records : List HorizonTransaction) (found : TransactionRecord)
      → first_match h hash records ≡ some found
      → Found hash records found
  unfolding first_match
  first_match-Found hash [] found p = cc p
  first_match-Found hash (tx ∷ records) found p = elim (Bool-cases (memo_matches h hash tx)) [
    | inl q ↦ (
      [],
      tx,
      records,
      refl,
      tt,
      memo_matches-Matches hash tx q,
      found_id hash tx records found q p,
    )
    | inr q ↦
        let (before, t, after, e, none_of, m, i) =
          first_match-Found hash records found (ground arith) in
        (tx ∷ before, t, after, ap (λ l. tx ∷ l) e, (q, none_of), m, i)
  ]
