-- ===== src/Cache/InMemory.antt =====
-- src/cache.rs, `CacheKey` and `InMemoryCache`. A text is a list of bytes; an operation that reads the
-- clock has the second as an argument; the queue of keys is listed from its back.
use proof_stell_contract.Base.{
  ℕ, ◌+◌, ◌==◌, ltb, if◌then◌else◌, Bool, true, false, Option, none, some, List, [], ◌∷◌, ◌++◌, ap,
  list_eq, length, ℕ_discrete, is_some, ◌≡◌,
}
use proof_stell_contract.Base.Words.{saturating_add_u64}
use proof_stell_contract.Base.Assoc.{find, insert, remove}
use proof_stell_contract.Cache.Recency.{retain, to_front}

abbrev pub Text : Type 0
Text = List ℕ

pub data CacheKey : Type 0 where
  verification : Text → CacheKey
  config : Text → CacheKey
  events : Text → CacheKey

-- `verification:`, `config:` and `events:`, then the name.
unfoldable pub as_string : CacheKey → Text
as_string (CacheKey.verification hash) =
    (118 ∷ 101 ∷ 114 ∷ 105 ∷ 102 ∷ 105 ∷ 99 ∷ 97 ∷ 116 ∷ 105 ∷ 111 ∷ 110 ∷ 58 ∷ []) ++ hash
as_string (CacheKey.config key) = (99 ∷ 111 ∷ 110 ∷ 102 ∷ 105 ∷ 103 ∷ 58 ∷ []) ++ key
as_string (CacheKey.events hash) = (101 ∷ 118 ∷ 101 ∷ 110 ∷ 116 ∷ 115 ∷ 58 ∷ []) ++ hash

same_name :
    {a b : Text} (wrap : Text → CacheKey)
    → ((x y : Text) → wrap x ≡ wrap y → x ≡ y)
    → Dec (a ≡ b)
    → Dec (wrap a ≡ wrap b)
same_name wrap inj (yes p) = yes (ap wrap p)
same_name wrap inj (no n) = no (λ z. n (inj _ _ z))

unfoldable pub key_eq : Discrete CacheKey
unfolding same_name
key_eq (CacheKey.verification a) (CacheKey.verification b) =
    same_name CacheKey.verification (λ x y z. cc z) (list_eq ℕ_discrete a b)
key_eq (CacheKey.config a) (CacheKey.config b) =
    same_name CacheKey.config (λ x y z. cc z) (list_eq ℕ_discrete a b)
key_eq (CacheKey.events a) (CacheKey.events b) =
    same_name CacheKey.events (λ x y z. cc z) (list_eq ℕ_discrete a b)
key_eq (CacheKey.verification a) (CacheKey.config b) = no (λ z. cc z)
key_eq (CacheKey.verification a) (CacheKey.events b) = no (λ z. cc z)
key_eq (CacheKey.config a) (CacheKey.verification b) = no (λ z. cc z)
key_eq (CacheKey.config a) (CacheKey.events b) = no (λ z. cc z)
key_eq (CacheKey.events a) (CacheKey.verification b) = no (λ z. cc z)
key_eq (CacheKey.events a) (CacheKey.config b) = no (λ z. cc z)

pub record Entry : Type 0 where
  pub value : Text
  pub expires_at : ℕ

pub data CacheEvent : Type 0 where
  evicted : CacheKey → CacheEvent
  expired : CacheKey → CacheEvent
  updated : CacheKey → CacheEvent
  deleted : CacheKey → CacheEvent

pub record CacheStats : Type 0 where
  pub hits : ℕ
  pub misses : ℕ
  pub evictions : ℕ
  pub expired : ℕ

abbrev pub Store : Type 0
Store = List (CacheKey × Entry)

pub record InMemoryCache : Type 0 where
  pub store : Store
  pub lru_queue : List CacheKey
  pub max_size : ℕ
  pub stats : CacheStats
  -- What the broadcast channel was sent, newest first.
  pub sent : List CacheEvent

unfoldable pub with_max_size : ℕ → InMemoryCache
with_max_size max_size = record {
  store = [];
  lru_queue = [];
  max_size = max_size;
  stats = record { hits = 0; misses = 0; evictions = 0; expired = 0 };
  sent = [];
}

-- A value and whether an expired entry was found.
unfoldable pub get_raw_with_expiry :
    CacheKey → ℕ → InMemoryCache → (Option Text × Bool) × InMemoryCache
get_raw_with_expiry key now c = go (find key_eq key c.store)
  where
    go : Option Entry → (Option Text × Bool) × InMemoryCache
    go none = ((none, false), record c { stats = record c.stats { misses = c.stats.misses + 1 } })
    go (some entry) =
        if ltb now entry.expires_at
        then (
          (some entry.value, false),
          record c {
            lru_queue = to_front key_eq key c.lru_queue;
            stats = record c.stats { hits = c.stats.hits + 1 };
          },
        )
        else (
          (none, true),
          record c {
            store = remove key_eq key c.store;
            lru_queue = retain key_eq key c.lru_queue;
            stats = record c.stats { expired = c.stats.expired + 1 };
            sent = CacheEvent.expired key ∷ c.sent;
          },
        )

-- An insertion and the move of its key to the front of the queue.
unfoldable pub put : CacheKey → Text → ℕ → ℕ → InMemoryCache → InMemoryCache
put key value ttl now c = record c {
  store =
      insert key_eq key (record { value = value; expires_at = saturating_add_u64 now ttl }) c.store;
  lru_queue = to_front key_eq key c.lru_queue;
}

-- `while store.len() > max_size`: the keys are popped from the back until the store fits or none is
-- left. The store and the queue that remain, and the keys that went.
unfoldable pub evict_over : ℕ → Store → List CacheKey → (Store × List CacheKey) × List CacheKey
evict_over max_size store [] = ((store, []), [])
evict_over max_size store (k ∷ queue) =
    let rest = evict_over max_size (remove key_eq k store) queue in
    if ltb max_size (length store) then (rest.0, k ∷ rest.1) else ((store, k ∷ queue), [])

abbrev announce : List CacheKey → List CacheEvent → List CacheEvent
announce [] sent = sent
announce (k ∷ ks) sent = announce ks (CacheEvent.evicted k ∷ sent)

unfoldable pub make_room : InMemoryCache → InMemoryCache × List CacheKey
make_room c =
    if c.max_size == 0
    then (c, [])
    else let r = evict_over c.max_size c.store c.lru_queue in
      (
        record c {
          store = r.0.0;
          lru_queue = r.0.1;
          stats = record c.stats { evictions = c.stats.evictions + length r.1 };
        },
        r.1,
      )

unfoldable pub set_raw : CacheKey → Text → ℕ → ℕ → InMemoryCache → InMemoryCache
set_raw key value ttl now c =
    let added = put key value ttl now c in
    let roomy = make_room (record added { sent = CacheEvent.updated key ∷ added.sent }) in
    record roomy.0 { sent = announce roomy.1 roomy.0.sent }

unfoldable pub delete : CacheKey → InMemoryCache → InMemoryCache
delete key c = record c {
  store = remove key_eq key c.store;
  lru_queue = retain key_eq key c.lru_queue;
  sent = if is_some (find key_eq key c.store) then CacheEvent.deleted key ∷ c.sent else c.sent;
}

-- The loop of `warm` and of `set_batch`.
abbrev pub put_all : List (CacheKey × (Text × ℕ)) → ℕ → InMemoryCache → InMemoryCache
put_all [] now c = c
put_all ((key, (value, ttl)) ∷ entries) now c = put_all entries now (put key value ttl now c)

unfoldable pub warm : List (CacheKey × (Text × ℕ)) → ℕ → InMemoryCache → ℕ × InMemoryCache
warm entries now c = (length entries, (make_room (put_all entries now c)).0)

unfoldable pub set_batch : List (CacheKey × (Text × ℕ)) → ℕ → InMemoryCache → ℕ × InMemoryCache
set_batch entries now c = (length entries, (make_room (put_all entries now c)).0)

-- As `get_raw_with_expiry`, without an event for an expired entry.
unfoldable pub get_quietly : CacheKey → ℕ → InMemoryCache → Option Text × InMemoryCache
get_quietly key now c =
    let r = get_raw_with_expiry key now c in (r.0.0, record r.1 { sent = c.sent })

unfoldable pub get_batch :
    List CacheKey → ℕ → InMemoryCache → List (CacheKey × Option Text) × InMemoryCache
get_batch [] now c = ([], c)
get_batch (key ∷ keys) now c =
    let (value, c') = get_quietly key now c in
    let (rest, c'') = get_batch keys now c' in ((key, value) ∷ rest, c'')
