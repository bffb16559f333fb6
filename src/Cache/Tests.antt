-- ===== src/Cache/Tests.antt =====
-- The cache and its circuit breaker at concrete inputs.
use proof_stell_contract.Base.{
  ℕ, ◌+◌, ◌≤◌, ◌<◌, ◌≡◌, ◌↔◌, refl, arith, inr, true, false, none, some, [], ◌∷◌, ℕ_discrete,
  list_eq,
}
use proof_stell_contract.Base.Assoc.{find, insert, remove, Unique}
use proof_stell_contract.Cache.Breaker.{
  CircuitState, CacheCircuitBreaker, default_config, new, current_backoff, should_allow,
  record_success, record_failure, take_last_transition,
}
use proof_stell_contract.Cache.Recovery.{
  Sound, Event, step, failures, step-Sound, failures-opens_iff,
}
use proof_stell_contract.Cache.Recency.{retain}
use proof_stell_contract.Cache.InMemory
use proof_stell_contract.Cache.InMemory.{
  CacheKey, key_eq, InMemoryCache, with_max_size, get_raw_with_expiry, put, evict_over, make_room,
}
use proof_stell_contract.Cache.Capacity.{Sized, Op, apply, apply-Sized, get_raw_with_expiry-set_raw}
use proof_stell_contract.Cache.Redis.{Server, RedisCache, new_health, get_raw, set_raw}
use proof_stell_contract.Cache.Outage.{Down, get_raw-set_raw-Down}

breaker : Unit {0}
unfolding new current_backoff should_allow record_success record_failure take_last_transition step
breaker = tt

abbrev fresh : CacheCircuitBreaker
fresh = record {
  state = CircuitState.closed;
  consecutive_failures = 0;
  failure_threshold = 5;
  open_duration = 30000;
  half_open_max_calls = 1;
  half_open_calls = 0;
  opened_at = none;
  backoff_base = 100;
  backoff_max = 30000;
  last_transition = none;
}

new_fresh : new default_config ≡ fresh
unfolding breaker
new_fresh = refl

fresh-Sound : Sound fresh
fresh-Sound = record {
  threshold = (omega arith, omega arith);
  calls = (omega arith, omega arith);
  fields = (omega arith, refl);
}

step-Sound_example : Sound (step Event.fail 10 fresh)
step-Sound_example = step-Sound Event.fail 10 fresh fresh-Sound

failures-opens_iff_example : ((failures 5 10 fresh).state ≡ CircuitState.open_circuit) ↔ (5 ≤ 5 + 0)
failures-opens_iff_example = failures-opens_iff 5 10 fresh fresh-Sound refl (omega arith)

abbrev probing : CacheCircuitBreaker
probing = record fresh {
  state = CircuitState.half_open;
  consecutive_failures = 5;
  opened_at = some 10;
}

-- Opened at 10 with five failures, the circuit waits 1600 ms.
waits : (should_allow 1609 (failures 5 10 fresh)).0 ≡ false
unfolding breaker
waits = refl

waits_no_more : (should_allow 1610 (failures 5 10 fresh)).0 ≡ true
unfolding breaker
waits_no_more = refl

-- A cache with room for two.
abbrev small : InMemoryCache
small = record {
  store = [];
  lru_queue = [];
  max_size = 2;
  stats = record { hits = 0; misses = 0; evictions = 0; expired = 0 };
  sent = [];
}

small-Sized : Sized small
unfolding Unique find
small-Sized = record {
  tracks = record { distinct = tt; unique = tt; same_length = refl; same_keys = λ k. refl };
  fits = inr (omega arith);
}

abbrev doc : CacheKey
doc = CacheKey.verification (7 ∷ [])

apply-Sized_example : Sized (apply (Op.set_op doc (1 ∷ []) 60) 100 small)
apply-Sized_example = apply-Sized (Op.set_op doc (1 ∷ []) 60) 100 small small-Sized

get_raw_with_expiry-set_raw_example :
    (get_raw_with_expiry doc 159 (InMemory.set_raw doc (1 ∷ []) 60 100 small)).0
    ≡ (some (1 ∷ []), false)
get_raw_with_expiry-set_raw_example =
    get_raw_with_expiry-set_raw doc (1 ∷ []) 60 100 159 small small-Sized (omega arith)
      (omega arith)

cache : Unit {0}
unfolding get_raw_with_expiry InMemory.set_raw put evict_over make_room key_eq list_eq ℕ_discrete
    find insert remove retain
cache = tt

-- The third key takes the place of the least recently used one.
evicts_least_recent :
    (get_raw_with_expiry (CacheKey.config (2 ∷ [])) 100 (
      InMemory.set_raw
        (CacheKey.config (3 ∷ []))
        (3 ∷ [])
        60
        100
        (get_raw_with_expiry (CacheKey.config (1 ∷ [])) 100 (
          InMemory.set_raw
            (CacheKey.config (2 ∷ []))
            (2 ∷ [])
            60
            100
            (InMemory.set_raw (CacheKey.config (1 ∷ [])) (1 ∷ []) 60 100 small))).1)).0
    ≡ (none, false)
unfolding cache
evicts_least_recent = refl

-- A server that counts the commands it is sent, and answers none.
abbrev silent : Server
silent = record {
  Db = ℕ;
  ping = λ n. (false, n + 1);
  get = λ k n. (none, n + 1);
  set_ex = λ k v t n. (none, n + 1);
  del = λ k n. (none, n + 1);
}

abbrev cut_off : RedisCache silent
cut_off = record {
  db = 0;
  health_check_state = new_health;
  circuit_breaker = record fresh {
    state = CircuitState.open_circuit;
    consecutive_failures = 5;
    opened_at = some 10;
  };
  max_concurrent = 20;
  active = 0;
  fallback_cache = small;
}

down : (now : ℕ) → now < 1610 → Down silent now cut_off
unfolding breaker
down now early = record { opened = 10; open_state = refl; since = refl; early = omega arith }

get_raw-set_raw-Down_example :
    ((get_raw silent doc 1500 (set_raw silent doc (1 ∷ []) 60 500 cut_off).1).0 ≡ some (1 ∷ []))
    × ((get_raw silent doc 1500 (set_raw silent doc (1 ∷ []) 60 500 cut_off).1).1.db ≡ 0)
get_raw-set_raw-Down_example =
    get_raw-set_raw-Down silent doc (1 ∷ []) 60 500 1500 cut_off small-Sized
      (down 500 (omega arith)) (down 1500 (omega arith)) (omega arith) (omega arith)
