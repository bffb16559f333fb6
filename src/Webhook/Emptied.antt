-- ===== src/Webhook/Emptied.antt =====
-- src/webhook.rs, `drain_dlq`: what is left after it.
use proof_stell_contract.Base.{
  ℕ, ◌≡◌, refl, arith, Bool, ltb, if_both, Option, none, Option-cases, inl, inr, List, [], ◌∷◌,
}
use proof_stell_contract.Base.Assoc.{find, remove, find-remove_self, find-remove_ne}
use proof_stell_contract.Cache.InMemory.{
  Text, CacheKey, Store, InMemoryCache, key_eq, get_raw_with_expiry, delete,
}
use proof_stell_contract.Webhook.Dispatch.{Network, WebhookDispatcher, dlq_key}
use proof_stell_contract.Webhook.Drain.{drain_urls, drain_dlq, count_letters, dlq_depth}

remove_keeps_absent :
    (k j : CacheKey) (m : Store) → find key_eq k m ≡ none → find key_eq k (remove key_eq j m) ≡ none
remove_keeps_absent k j m p = elim (key_eq k j) [
  | yes q ↦ rw q (find-remove_self key_eq j m)
  | no n ↦ rw (find-remove_ne key_eq k j m n) p
]

get_keeps_absent :
    (k j : CacheKey) (now : ℕ) (c : InMemoryCache)
    → find key_eq k c.store ≡ none
    → find key_eq k (get_raw_with_expiry j now c).1.store ≡ none
unfolding get_raw_with_expiry
get_keeps_absent k j now c p = elim (Option-cases (find key_eq j c.store)) [
  | inl q ↦ rw q p
  | inr (entry, q) ↦ rw q (
      if_both (λ (r : (Option Text × Bool) × InMemoryCache). find key_eq k r.1.store ≡ none)
        (ltb now entry.expires_at) _ _ p (remove_keeps_absent k j c.store p))
]

delete_keeps_absent :
    (k j : CacheKey) (c : InMemoryCache)
    → find key_eq k c.store ≡ none
    → find key_eq k (delete j c).store ≡ none
unfolding delete
delete_keeps_absent k j c p = remove_keeps_absent k j c.store p

delete_absent : (k : CacheKey) (c : InMemoryCache) → find key_eq k (delete k c).store ≡ none
unfolding delete
delete_absent k c = find-remove_self key_eq k c.store

get-missing :
    (k : CacheKey) (now : ℕ) (c : InMemoryCache)
    → find key_eq k c.store ≡ none
    → (get_raw_with_expiry k now c).0.0 ≡ none
unfolding get_raw_with_expiry
get-missing k now c p = rw p refl

-- No URL has a letter.
unfoldable pub NoLetter : List Text → InMemoryCache → Type 0
NoLetter [] c = Unit
NoLetter (url ∷ urls) c = (find key_eq (dlq_key url) c.store ≡ none) × NoLetter urls c

get-NoLetter :
    (urls : List Text) (j : CacheKey) (now : ℕ) (c : InMemoryCache)
    → NoLetter urls c
    → NoLetter urls (get_raw_with_expiry j now c).1
unfolding NoLetter
get-NoLetter [] j now c h = tt
get-NoLetter (url ∷ urls) j now c (p, h) =
    (get_keeps_absent (dlq_key url) j now c p, get-NoLetter urls j now c h)

count_letters-NoLetter :
    (urls : List Text) (now : ℕ) (c : InMemoryCache)
    → NoLetter urls c
    → (count_letters urls now c).0 ≡ 0
unfolding NoLetter count_letters
count_letters-NoLetter [] now c h = refl
count_letters-NoLetter (url ∷ urls) now c (p, h) =
    let rest = count_letters-NoLetter urls now _ (get-NoLetter urls (dlq_key url) now c h) in
    rw (get-missing (dlq_key url) now c p) (omega arith)

module _ (network : Network) where
  drain_keeps_absent :
      (k : CacheKey) (urls : List Text) (now : ℕ) (c : InMemoryCache)
      → find key_eq k c.store ≡ none
      → find key_eq k (drain_urls network urls now c).1.store ≡ none
  unfolding drain_urls
  drain_keeps_absent k [] now c p = p
  drain_keeps_absent k (url ∷ urls) now c p =
      drain_keeps_absent k urls now _
        (delete_keeps_absent k (dlq_key url) _ (get_keeps_absent k (dlq_key url) now c p))

  drain_urls-NoLetter :
      (urls : List Text) (now : ℕ) (c : InMemoryCache)
      → NoLetter urls (drain_urls network urls now c).1
  unfolding NoLetter drain_urls
  drain_urls-NoLetter [] now c = tt
  drain_urls-NoLetter (url ∷ urls) now c = (
    drain_keeps_absent (dlq_key url) urls now _ (delete_absent (dlq_key url) _),
    drain_urls-NoLetter urls now _,
  )

  -- Once the dead letters are drained, there are none, in the queue or in the cache.
  pub dlq_depth-drain_dlq :
      (d : WebhookDispatcher network) → (dlq_depth network (drain_dlq network d).1).0 ≡ 0
  unfolding dlq_depth drain_dlq
  dlq_depth-drain_dlq d = elim (Option-cases d.cache) [
    | inl q ↦ rw q refl
    | inr (c, q) ↦ rw q (
        count_letters-NoLetter d.config.urls (network.now d.world) _
          (drain_urls-NoLetter d.config.urls (network.now d.world) c))
  ]
