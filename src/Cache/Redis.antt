-- ===== src/Cache/Redis.antt =====
-- src/cache.rs, `HealthCheckState`, `CacheBulkhead`, `RedisCache` and `CacheBackend`: the Redis
-- connection, what guards it, and the fallback. Instants are milliseconds. The counters of the metrics
-- are left out: nothing reads them back.
use proof_stell_contract.Base.{
  ℕ, ◌+◌, ◌*◌, ◌/◌, ◌^◌, ltb, leb, min, if◌then◌else◌, not, Bool, true, false, Option, none, some,
}
use proof_stell_contract.Base.Words.{as_u32}
use proof_stell_contract.Cache.Breaker
use proof_stell_contract.Cache.Breaker.{CacheCircuitBreaker, should_allow, take_last_transition}
use proof_stell_contract.Cache.InMemory
use proof_stell_contract.Cache.InMemory.{
  Text, CacheKey, as_string, InMemoryCache, get_raw_with_expiry,
}

pub record HealthCheckState : Type 0 where
  pub last_check : Option ℕ
  pub is_healthy : Bool
  pub backoff_until : Option ℕ
  pub consecutive_failures : ℕ

abbrev pub new_health : HealthCheckState
new_health = record {
  last_check = none;
  is_healthy = true;
  backoff_until = none;
  consecutive_failures = 0;
}

abbrev due : ℕ → Option ℕ → Bool
due now none = true
due now (some until) = not (ltb now until)

unfoldable pub should_check : ℕ → HealthCheckState → Bool
should_check now h = due now h.backoff_until

unfoldable pub record_healthy : ℕ → HealthCheckState → HealthCheckState
record_healthy now h = record h {
  is_healthy = true;
  last_check = some now;
  backoff_until = none;
  consecutive_failures = 0;
}

unfoldable pub backoff_secs : ℕ → ℕ
backoff_secs failures = min (2 ^ min failures 6) 60

unfoldable pub record_unhealthy : ℕ → HealthCheckState → HealthCheckState
record_unhealthy now h =
    let failures = as_u32 (h.consecutive_failures + 1) in
    record h {
      is_healthy = false;
      last_check = some now;
      consecutive_failures = failures;
      backoff_until = some (now + 1000 * backoff_secs failures);
    }

-- A Redis server: an answer is `none` where the client reports an error.
pub record Server : Type 1 where
  pub Db : Type 0
  pub ping : Db → Bool × Db
  pub get : Text → Db → Option (Option Text) × Db
  pub set_ex : Text → Text → ℕ → Db → Option (Unit {0}) × Db
  pub del : Text → Db → Option (Unit {0}) × Db

module _ (server : Server) where
  open server use {Db}

  pub record RedisCache : Type 0 where
    pub db : Db
    pub health_check_state : HealthCheckState
    pub circuit_breaker : CacheCircuitBreaker
    -- The permits of the bulkhead, and those that operations under way hold.
    pub max_concurrent : ℕ
    pub active : ℕ
    pub fallback_cache : InMemoryCache

  unfoldable pub check_connection : ℕ → RedisCache → Bool × RedisCache
  check_connection now c =
      let h = c.health_check_state in
      if not (should_check now h)
      then (h.is_healthy, c)
      else let (up, db) = server.ping c.db in
        (
          up,
          record c {
            db = db;
            health_check_state = if up then record_healthy now h else record_unhealthy now h;
          },
        )

  unfoldable pub record_success : ℕ → RedisCache → RedisCache
  record_success now c = record c {
    circuit_breaker = (take_last_transition (Breaker.record_success now c.circuit_breaker)).1;
  }

  unfoldable pub record_failure : ℕ → RedisCache → RedisCache
  record_failure now c = record c {
    circuit_breaker = (take_last_transition (Breaker.record_failure now c.circuit_breaker)).1;
  }

  -- The answer of the server, reported to the breaker.
  abbrev settle_answer : {A : Type 0} → ℕ → Option A → RedisCache → Option A × RedisCache
  settle_answer now none c = (none, record_failure now c)
  settle_answer now (some a) c = (some a, record_success now c)

  -- `get_raw`, `set_raw` and `delete` of `RedisCache`, but for the command that they send. The permit
  -- is held for the time of the operation.
  unfoldable pub guarded :
      {A : Type 0} → (Db → Option A × Db) → ℕ → RedisCache → Option A × RedisCache
  guarded command now c =
      let (allowed, breaker) = should_allow now c.circuit_breaker in
      let c1 : RedisCache = record c { circuit_breaker = breaker } in
      if not allowed
      then (none, c1)
      else if leb c.max_concurrent c.active
      then (none, c1)
      else let (healthy, c2) = check_connection now c1 in
        if not healthy
        then (none, record_failure now c2)
        else let (answer, db) = command c2.db in settle_answer now answer (record c2 { db = db })

  -- What `CacheBackend::Redis` does when the guarded command fails.
  abbrev pub or_fallback :
      {A : Type 0} → (InMemoryCache → A × InMemoryCache) → Option A × RedisCache → A × RedisCache
  or_fallback local (some a, c) = (a, c)
  or_fallback local (none, c) =
      let (a, fallback) = local c.fallback_cache in (a, record c { fallback_cache = fallback })

  unfoldable pub get_raw : CacheKey → ℕ → RedisCache → Option Text × RedisCache
  get_raw key now c =
      or_fallback (λ m. let r = get_raw_with_expiry key (now / 1000) m in (r.0.0, r.1))
        (guarded (server.get (as_string key)) now c)

  unfoldable pub set_raw : CacheKey → Text → ℕ → ℕ → RedisCache → Unit {0} × RedisCache
  set_raw key value ttl now c =
      or_fallback (λ m. (tt, InMemory.set_raw key value ttl (now / 1000) m))
        (guarded (server.set_ex (as_string key) value ttl) now c)

  unfoldable pub delete : CacheKey → ℕ → RedisCache → Unit {0} × RedisCache
  delete key now c =
      or_fallback (λ m. (tt, InMemory.delete key m)) (guarded (server.del (as_string key)) now c)
