-- ===== src/Cache/Outage.antt =====
-- src/cache.rs, `RedisCache` and `CacheBackend`: what they do while the circuit is open.
use proof_stell_contract.Base.{
  ℕ, ◌+◌, ◌-◌, ◌/◌, ◌<◌, ◌≡◌, refl, ap, ◌∙◌, arith, leb, false, Option, none, some,
}
use proof_stell_contract.Base.Words.{u64_max}
use proof_stell_contract.Cache.Breaker.{
  CircuitState, current_backoff, should_allow, allow_in, waited,
}
use proof_stell_contract.Cache.InMemory
use proof_stell_contract.Cache.InMemory.{
  Text, CacheKey, as_string, InMemoryCache, get_raw_with_expiry,
}
use proof_stell_contract.Cache.Capacity.{Sized, get_raw_with_expiry-set_raw}
use proof_stell_contract.Cache.Redis.{Server, RedisCache, guarded, or_fallback, get_raw, set_raw}

module _ (server : Server) where
  -- The circuit is open, and its backoff has not passed at the time given.
  pub record Down (now : ℕ) (c : RedisCache server) : Type 0 where
    pub opened : ℕ
    pub open_state : c.circuit_breaker.state ≡ CircuitState.open_circuit
    pub since : c.circuit_breaker.opened_at ≡ some opened
    pub early : now - opened < current_backoff c.circuit_breaker

  should_allow-Down :
      (now : ℕ) (c : RedisCache server)
      → Down now c
      → should_allow now c.circuit_breaker ≡ (false, c.circuit_breaker)
  unfolding should_allow
  should_allow-Down now c d =
      let h : leb (current_backoff c.circuit_breaker) (now - d.opened) ≡ false =
        let e = d.early in ground arith in
      let w : waited now c.circuit_breaker c.circuit_breaker.opened_at ≡ false =
        ap (waited now c.circuit_breaker) d.since ∙ h in
      ap (λ st. allow_in st now c.circuit_breaker) d.open_state ∙ rw w refl

  -- Nothing is sent, and nothing changes.
  guarded-Down :
      {A : Type 0} (command : server.Db → Option A × server.Db) (now : ℕ) (c : RedisCache server)
      → Down now c
      → guarded server command now c ≡ (none, c)
  unfolding guarded
  guarded-Down command now c d = rw (should_allow-Down now c d) refl

  get_raw-Down :
      (key : CacheKey) (now : ℕ) (c : RedisCache server)
      → Down now c
      → get_raw server key now c ≡ (
        (get_raw_with_expiry key (now / 1000) c.fallback_cache).0.0,
        record c { fallback_cache = (get_raw_with_expiry key (now / 1000) c.fallback_cache).1 },
      )
  unfolding get_raw
  get_raw-Down key now c d = ap (or_fallback server _) (guarded-Down _ now c d)

  set_raw-Down :
      (key : CacheKey) (value : Text) (ttl now : ℕ) (c : RedisCache server)
      → Down now c
      → (set_raw server key value ttl now c).1
        ≡ record c { fallback_cache = InMemory.set_raw key value ttl (now / 1000) c.fallback_cache }
  unfolding set_raw
  set_raw-Down key value ttl now c d =
      ap (λ x. (or_fallback server (λ m. (tt, InMemory.set_raw key value ttl (now / 1000) m)) x).1)
        (guarded-Down _ now c d)

  -- While the circuit is open and its backoff has not passed, what is set can be read until it expires,
  -- from a fallback whose queue and size are in order, and the state of the server stays as it is.
  pub get_raw-set_raw-Down :
      (key : CacheKey) (value : Text) (ttl now later : ℕ) (c : RedisCache server)
      → Sized c.fallback_cache
      → Down now c
      → Down later c
      → later / 1000 < now / 1000 + ttl
      → later / 1000 < u64_max
      → ((get_raw server key later (set_raw server key value ttl now c).1).0 ≡ some value)
        × ((get_raw server key later (set_raw server key value ttl now c).1).1.db ≡ c.db)
  get_raw-set_raw-Down key value ttl now later c s d l fresh small =
      let after : RedisCache server = record c {
        fallback_cache = InMemory.set_raw key value ttl (now / 1000) c.fallback_cache;
      } in
      let still : Down later after = record {
        opened = l.opened;
        open_state = l.open_state;
        since = l.since;
        early = l.early;
      } in
      let read = get_raw-Down key later after still in
      let written = ap (get_raw server key later) (set_raw-Down key value ttl now c d) in
      (
        ap (λ r. r.0) (written ∙ read)
            ∙ ap (λ r. r.0)
                (get_raw_with_expiry-set_raw key value ttl (now / 1000) (later / 1000)
                  c.fallback_cache s fresh small),
        ap (λ r. r.1.db) (written ∙ read),
      )
