-- ===== src/Stellar/Answers.antt =====
-- src/stellar.rs, `parse_horizon_transaction`, and what `verify_hash` makes of an answer.
use proof_stell_contract.Base.{
  ℕ, if◌then◌else◌, Bool, true, false, Option, none, some, unwrap_or, List, [], ◌∷◌,
}
use proof_stell_contract.Base.Int.{ℤ, pos}
use proof_stell_contract.Hash.Tools.{Text}
use proof_stell_contract.Hash.Canonical
use proof_stell_contract.Hash.Canonical.{CanonicalHash, to_stellar_memo_base64}
use proof_stell_contract.Stellar.Client.{
  VerificationStatus, TransactionRecord, HorizonTransaction, Answer, Flow, return_with, again, stop,
  Horizon, is_retryable_status, eq_ignore_ascii_case, memo_text, memo_hash, same_text, to_option,
  equals,
}

module _ (h : Horizon) where
  abbrev pub encoded : Option CanonicalHash → Option Text
  encoded none = none
  encoded (some c) = to_option (to_stellar_memo_base64 h.base64 c)

  unfoldable pub expected_hash_b64 : Text → Option Text
  expected_hash_b64 expected_hash = encoded (to_option (Canonical.new h.subtle expected_hash))

  abbrev pub matches_type : Text → Text → Option Text → Bool
  matches_type expected_hash memo none = false
  matches_type expected_hash memo (some memo_type) =
      if same_text memo_type memo_text
      then eq_ignore_ascii_case memo expected_hash
      else if same_text memo_type memo_hash
      then equals memo (expected_hash_b64 expected_hash)
      else false

  unfoldable pub memo_matches : Text → HorizonTransaction → Bool
  unfolding expected_hash_b64
  memo_matches expected_hash tx = matches_type expected_hash (unwrap_or tx.memo []) tx.memo_type

  abbrev time_of : Option Text → ℤ
  time_of none = pos 0
  time_of (some ts) = unwrap_or (h.parse_from_rfc3339 ts) (pos 0)

  unfoldable pub record_of : HorizonTransaction → TransactionRecord
  record_of tx = record {
    transaction_id = tx.id;
    timestamp = time_of tx.created_at;
    verified = true;
  }

  -- The loop over the transactions of the body.
  unfoldable pub first_match : Text → List HorizonTransaction → Option TransactionRecord
  unfolding memo_matches record_of
  first_match expected_hash [] = none
  first_match expected_hash (tx ∷ records) =
      let rest = first_match expected_hash records in
      if memo_matches expected_hash tx then some (record_of tx) else rest

  abbrev pub found_record : Option ℕ → Option TransactionRecord → Flow
  found_record last_http none = stop VerificationStatus.no_match last_http
  found_record last_http (some tx) = return_with (record {
    status = VerificationStatus.confirmed_match;
    transaction_id = some tx.transaction_id;
    timestamp = some tx.timestamp;
    last_http_status = none;
  })

  abbrev pub read_body : Text → Option ℕ → Option (List HorizonTransaction) → Flow
  read_body hash last_http none = again VerificationStatus.malformed_response last_http
  read_body hash last_http (some records) = found_record last_http (first_match hash records)

  unfoldable pub read_answer : Text → Option ℕ → Answer → Flow
  unfolding first_match is_retryable_status
  read_answer hash last_http Answer.failed = again VerificationStatus.network_error none
  read_answer hash last_http (Answer.response status body) =
      if h.is_success status
      then read_body hash last_http body
      else if is_retryable_status status
      then again VerificationStatus.network_error (some status)
      else stop VerificationStatus.no_match (some status)
