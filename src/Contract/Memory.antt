-- ===== src/Contract/Memory.antt =====
-- A concrete host for the tests: addresses, hashes and symbols are numbers, the store is a record
-- of functions, and a failed invocation leaves the store that it found.
use proof_stell_contract.Base.{
  ℕ, Bool, ◌≡◌, refl, ◌≢◌, Option, none, some, ite, if_pos, if_neg, ℕ_discrete, ap,
}
use proof_stell_contract.Contract.Host.{
  Host, DataKey, Value, DocumentRecord, RateLimitScope, RateLimitConfig, RateLimitBucketState,
}

abbrev Key : Type 0
Key = DataKey ℕ ℕ ℕ

pub record Cells : Type 0 where
  pub documents : ℕ → Option (DocumentRecord ℕ)
  pub admin : Option ℕ
  pub version : Option ℕ
  pub flags : ℕ → Option Bool
  pub config : Option RateLimitConfig
  pub buckets : RateLimitScope ℕ → Option RateLimitBucketState
  pub retries : RateLimitScope ℕ → Option ℕ

unfoldable pub scope_eq : Discrete (RateLimitScope ℕ)
scope_eq (RateLimitScope.address a) (RateLimitScope.address b) = elim (ℕ_discrete a b) [
  | yes p ↦ yes (ap RateLimitScope.address p)
  | no n ↦ no (λ e. n (cc e))
]
scope_eq (RateLimitScope.issuer a) (RateLimitScope.issuer b) = elim (ℕ_discrete a b) [
  | yes p ↦ yes (ap RateLimitScope.issuer p)
  | no n ↦ no (λ e. n (cc e))
]
scope_eq (RateLimitScope.address a) (RateLimitScope.issuer b) = no (λ e. cc e)
scope_eq (RateLimitScope.issuer a) (RateLimitScope.address b) = no (λ e. cc e)

abbrev pub read : (k : Key) → Cells → Option (Value k)
read (DataKey.document h) s = s.documents h
read DataKey.admin s = s.admin
read DataKey.version s = s.version
read (DataKey.feature_flag f) s = s.flags f
read DataKey.rate_limit_config s = s.config
read (DataKey.rate_limit_state c) s = s.buckets c
read (DataKey.rate_limit_retry_after c) s = s.retries c

abbrev pub put : (k : Key) → Option (Value k) → Cells → Cells
put (DataKey.document h) v s = record s { documents = λ j. ite (ℕ_discrete j h) v (s.documents j) }
put DataKey.admin v s = record s { admin = v }
put DataKey.version v s = record s { version = v }
put (DataKey.feature_flag f) v s = record s { flags = λ j. ite (ℕ_discrete j f) v (s.flags j) }
put DataKey.rate_limit_config v s = record s { config = v }
put (DataKey.rate_limit_state c) v s = record s {
  buckets = λ j. ite (scope_eq j c) v (s.buckets j);
}
put (DataKey.rate_limit_retry_after c) v s = record s {
  retries = λ j. ite (scope_eq j c) v (s.retries j);
}

pub read-put_self : (k : Key) (v : Option (Value k)) (s : Cells) → read k (put k v s) ≡ v
read-put_self (DataKey.document h) v s = if_pos (ℕ_discrete h h) refl _ _
read-put_self DataKey.admin v s = refl
read-put_self DataKey.version v s = refl
read-put_self (DataKey.feature_flag f) v s = if_pos (ℕ_discrete f f) refl _ _
read-put_self DataKey.rate_limit_config v s = refl
read-put_self (DataKey.rate_limit_state c) v s = if_pos (scope_eq c c) refl _ _
read-put_self (DataKey.rate_limit_retry_after c) v s = if_pos (scope_eq c c) refl _ _

pub read-put_ne :
    (j k : Key) (v : Option (Value k)) (s : Cells) → j ≢ k → read j (put k v s) ≡ read j s
read-put_ne (DataKey.document i) (DataKey.document h) v s n =
    if_neg (ℕ_discrete i h) (λ e. n (ap DataKey.document e)) _ _
read-put_ne (DataKey.feature_flag i) (DataKey.feature_flag h) v s n =
    if_neg (ℕ_discrete i h) (λ e. n (ap DataKey.feature_flag e)) _ _
read-put_ne (DataKey.rate_limit_state i) (DataKey.rate_limit_state h) v s n =
    if_neg (scope_eq i h) (λ e. n (ap DataKey.rate_limit_state e)) _ _
read-put_ne (DataKey.rate_limit_retry_after i) (DataKey.rate_limit_retry_after h) v s n =
    if_neg (scope_eq i h) (λ e. n (ap DataKey.rate_limit_retry_after e)) _ _
read-put_ne DataKey.admin DataKey.admin v s n = absurd (n refl)
read-put_ne DataKey.version DataKey.version v s n = absurd (n refl)
read-put_ne DataKey.rate_limit_config DataKey.rate_limit_config v s n = absurd (n refl)
read-put_ne _ _ v s n = refl

instance abbrev pub memory : Host
memory = record {
  Address = ℕ;
  Hash = ℕ;
  Symbol = ℕ;
  address_eq = ℕ_discrete;
  hash_eq = ℕ_discrete;
  Store = Cells;
  get = read;
  set = λ k v. put k (some v);
  remove = λ k. put k none;
  get-set_self = λ k v. read-put_self k (some v);
  get-set_ne = λ j k v. read-put_ne j k (some v);
  get-remove_self = λ k. read-put_self k none;
  get-remove_ne = λ j k. read-put_ne j k none;
  rollback = λ before _. before;
  rollback_lem = λ before _. refl;
}

abbrev pub empty_cells : Cells
empty_cells = record {
  documents = λ _. none;
  admin = none;
  version = none;
  flags = λ _. none;
  config = none;
  buckets = λ _. none;
  retries = λ _. none;
}
