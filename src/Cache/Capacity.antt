-- ===== src/Cache/Capacity.antt =====
-- src/cache.rs, `InMemoryCache`: the agreement of the queue with the store, the limit of the size,
-- and a read after a write.
use proof_stell_contract.Base.{
  ℕ, ◌+◌, ◌==◌, ◌≤◌, ◌<◌, ◌≡◌, ◌≢◌, ◌⊎◌, refl, ap, ◌∙◌, arith, ltb, is_some, true, false,
  Bool-cases, Option-cases, inl, inr, some, List, [], ◌∷◌, ◌++◌, length, ℕ_discrete,
}
use proof_stell_contract.Base.Words.{u64_max, saturating_add_u64}
use proof_stell_contract.Base.Assoc.{find, remove, find-remove_ne, find-insert_self}
use proof_stell_contract.Cache.Recency.{
  retain, Tracks, Tracks-insert, Tracks-remove, Tracks-touch, Tracks-pop, ends_apart,
  length-remove-le,
}
use proof_stell_contract.Cache.InMemory.{
  Text, CacheKey, key_eq, Store, InMemoryCache, CacheEvent, get_raw_with_expiry, put, evict_over,
  make_room, set_raw, delete, put_all, warm, set_batch, get_batch, get_quietly,
}

abbrev Keeps : List CacheKey → Store → Type 0
Keeps = Tracks key_eq

evict_over-Tracks :
    (max_size : ℕ) (store : Store) (queue : List CacheKey)
    → Keeps queue store
    → Keeps (evict_over max_size store queue).0.1 (evict_over max_size store queue).0.0
unfolding evict_over
evict_over-Tracks max_size store [] t = t
evict_over-Tracks max_size store (k ∷ queue) t = elim (Bool-cases (ltb max_size (length store))) [
  | inl p ↦
      rw p (
        evict_over-Tracks max_size (remove key_eq k store) queue
          (Tracks-pop key_eq k queue store t))
  | inr p ↦ rw p t
]

evict_over-fits :
    (max_size : ℕ) (store : Store) (queue : List CacheKey)
    → Keeps queue store
    → length (evict_over max_size store queue).0.0 ≤ max_size
unfolding evict_over
evict_over-fits max_size store [] t = let h = t.same_length in omega arith
evict_over-fits max_size store (k ∷ queue) t = elim (Bool-cases (ltb max_size (length store))) [
  | inl p ↦
      rw p
        (evict_over-fits max_size (remove key_eq k store) queue (Tracks-pop key_eq k queue store t))
  | inr p ↦ rw p (ground arith)
]

-- The key at the front is the last to go, and stays where there is room for one.
evict_over-front :
    (max_size : ℕ) (store : Store) (queue : List CacheKey) (k : CacheKey)
    → 0 < max_size
    → Keeps (queue ++ k ∷ []) store
    → find key_eq k (evict_over max_size store (queue ++ k ∷ [])).0.0 ≡ find key_eq k store
unfolding evict_over
evict_over-front max_size store [] k room t =
    let h : ltb max_size (length store) ≡ false = let l = t.same_length in ground arith in rw h refl
evict_over-front max_size store (j ∷ queue) k room t =
    elim (Bool-cases (ltb max_size (length store))) [
      | inl p ↦
          let apart : k ≢ j = ends_apart key_eq j k queue t.distinct.0 in
          rw p (
            evict_over-front max_size (remove key_eq j store) queue k room
              (Tracks-pop key_eq j _ store t)
            ∙ find-remove_ne key_eq k j store apart)
      | inr p ↦ rw p refl
    ]

-- The queue holds the keys of the store, each once, and the store is within the limit, if there is one.
pub record Sized (c : InMemoryCache) : Type 0 where
  pub tracks : Keeps c.lru_queue c.store
  pub fits : (c.max_size ≡ 0) ⊎ (length c.store ≤ c.max_size)

put-Tracks :
    (key : CacheKey) (value : Text) (ttl now : ℕ) (c : InMemoryCache)
    → Keeps c.lru_queue c.store
    → Keeps (put key value ttl now c).lru_queue (put key value ttl now c).store
unfolding put
put-Tracks key value ttl now c t = Tracks-insert key_eq key _ c.lru_queue c.store t

put_all-Tracks :
    (entries : List (CacheKey × (Text × ℕ))) (now : ℕ) (c : InMemoryCache)
    → Keeps c.lru_queue c.store
    → Keeps (put_all entries now c).lru_queue (put_all entries now c).store
put_all-Tracks [] now c t = t
put_all-Tracks ((key, (value, ttl)) ∷ entries) now c t =
    put_all-Tracks entries now _ (put-Tracks key value ttl now c t)

make_room-Sized : (c : InMemoryCache) → Keeps c.lru_queue c.store → Sized (make_room c).0
unfolding make_room
make_room-Sized c t = elim (ℕ_discrete c.max_size 0) [
  | yes p ↦
      let h : c.max_size == 0 ≡ true = ground arith in rw h (record { tracks = t; fits = inl p })
  | no n ↦
      let h : c.max_size == 0 ≡ false = ground arith in
      rw h (record {
        tracks = evict_over-Tracks c.max_size c.store c.lru_queue t;
        fits = inr (evict_over-fits c.max_size c.store c.lru_queue t);
      })
]

make_room-unlimited : (c : InMemoryCache) → c.max_size ≡ 0 → (make_room c).0.store ≡ c.store
unfolding make_room
make_room-unlimited c p = let h : c.max_size == 0 ≡ true = ground arith in rw h refl

make_room-limited :
    (c : InMemoryCache)
    → c.max_size ≢ 0
    → (make_room c).0.store ≡ (evict_over c.max_size c.store c.lru_queue).0.0
unfolding make_room
make_room-limited c n = let h : c.max_size == 0 ≡ false = ground arith in rw h refl

set_raw-Sized :
    (key : CacheKey) (value : Text) (ttl now : ℕ) (c : InMemoryCache)
    → Sized c
    → Sized (set_raw key value ttl now c)
unfolding set_raw put
set_raw-Sized key value ttl now c s =
    let m =
      make_room-Sized (record (put key value ttl now c) { sent = CacheEvent.updated key ∷ c.sent })
        (put-Tracks key value ttl now c s.tracks) in
    record { tracks = m.tracks; fits = m.fits }

remove_fits :
    (k : CacheKey) (c : InMemoryCache)
    → Sized c
    → (c.max_size ≡ 0) ⊎ (length (remove key_eq k c.store) ≤ c.max_size)
remove_fits k c s = elim s.fits [
  | inl z ↦ inl z
  | inr h ↦ inr (let l = length-remove-le key_eq k c.store s.tracks.unique in omega arith)
]

delete-Sized : (key : CacheKey) (c : InMemoryCache) → Sized c → Sized (delete key c)
unfolding delete
delete-Sized key c s = record {
  tracks = Tracks-remove key_eq key c.lru_queue c.store s.tracks;
  fits = remove_fits key c s;
}

get_raw_with_expiry-Sized :
    (key : CacheKey) (now : ℕ) (c : InMemoryCache)
    → Sized c
    → Sized (get_raw_with_expiry key now c).1
unfolding get_raw_with_expiry
get_raw_with_expiry-Sized key now c s = elim (Option-cases (find key_eq key c.store)) [
  | inl p ↦ rw p (record { tracks = s.tracks; fits = s.fits })
  | inr (entry, p) ↦ elim (Bool-cases (ltb now entry.expires_at)) [
    | inl q ↦
        rw (p, q)
          (record {
            tracks =
                Tracks-touch key_eq key c.lru_queue c.store s.tracks
                  (s.tracks.same_keys key ∙ ap is_some p);
            fits = s.fits;
          })
    | inr q ↦
        rw (p, q)
          (record {
            tracks = Tracks-remove key_eq key c.lru_queue c.store s.tracks;
            fits = remove_fits key c s;
          })
  ]
]

get_batch-Sized :
    (keys : List CacheKey) (now : ℕ) (c : InMemoryCache) → Sized c → Sized (get_batch keys now c).1
unfolding get_batch get_quietly
get_batch-Sized [] now c s = s
get_batch-Sized (key ∷ keys) now c s =
    let m = get_raw_with_expiry-Sized key now c s in
    get_batch-Sized keys now _ (record { tracks = m.tracks; fits = m.fits })

-- One call on the cache, at the second given to it.
pub data Op : Type 0 where
  get_op : CacheKey → Op
  set_op : CacheKey → Text → ℕ → Op
  delete_op : CacheKey → Op
  warm_op : List (CacheKey × (Text × ℕ)) → Op
  get_batch_op : List CacheKey → Op
  set_batch_op : List (CacheKey × (Text × ℕ)) → Op

unfoldable pub apply : Op → ℕ → InMemoryCache → InMemoryCache
apply (Op.get_op key) now c = (get_raw_with_expiry key now c).1
apply (Op.set_op key value ttl) now c = set_raw key value ttl now c
apply (Op.delete_op key) now c = delete key c
apply (Op.warm_op entries) now c = (warm entries now c).1
apply (Op.get_batch_op keys) now c = (get_batch keys now c).1
apply (Op.set_batch_op entries) now c = (set_batch entries now c).1

-- Every call keeps a cache whose queue holds the keys of its store, each once, and whose size is within
-- the limit, if there is one, as such a cache.
pub apply-Sized : (op : Op) (now : ℕ) (c : InMemoryCache) → Sized c → Sized (apply op now c)
unfolding apply warm set_batch
apply-Sized (Op.get_op key) now c s = get_raw_with_expiry-Sized key now c s
apply-Sized (Op.set_op key value ttl) now c s = set_raw-Sized key value ttl now c s
apply-Sized (Op.delete_op key) now c s = delete-Sized key c s
apply-Sized (Op.warm_op entries) now c s = make_room-Sized _ (put_all-Tracks entries now c s.tracks)
apply-Sized (Op.get_batch_op keys) now c s = get_batch-Sized keys now c s
apply-Sized (Op.set_batch_op entries) now c s =
    make_room-Sized _ (put_all-Tracks entries now c s.tracks)

set_raw-find :
    (key : CacheKey) (value : Text) (ttl now : ℕ) (c : InMemoryCache)
    → Sized c
    → find key_eq key (set_raw key value ttl now c).store
      ≡ some (record { value = value; expires_at = saturating_add_u64 now ttl })
unfolding set_raw put
set_raw-find key value ttl now c s =
    let added : InMemoryCache = record (put key value ttl now c) {
      sent = CacheEvent.updated key ∷ c.sent;
    } in
    elim (ℕ_discrete c.max_size 0) [
      | yes p ↦
          ap (find key_eq key) (make_room-unlimited added p) ∙ find-insert_self key_eq key _ c.store
      | no n ↦
          ap (find key_eq key) (make_room-limited added n)
          ∙ evict_over-front c.max_size _ (retain key_eq key c.lru_queue) key (omega arith)
              (Tracks-insert key_eq key _ c.lru_queue c.store s.tracks)
          ∙ find-insert_self key_eq key _ c.store
    ]

-- In a cache whose queue holds the keys of its store and whose size is within its limit, what was set
-- is read until it expires, at times below the last of a `u64`: a full cache evicts something else.
pub get_raw_with_expiry-set_raw :
    (key : CacheKey) (value : Text) (ttl now later : ℕ) (c : InMemoryCache)
    → Sized c
    → later < now + ttl
    → later < u64_max
    → (get_raw_with_expiry key later (set_raw key value ttl now c)).0 ≡ (some value, false)
unfolding get_raw_with_expiry
get_raw_with_expiry-set_raw key value ttl now later c s fresh small =
    let h : ltb later (saturating_add_u64 now ttl) ≡ true = ground arith in
    rw (set_raw-find key value ttl now c s, h) refl
