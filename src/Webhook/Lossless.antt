-- ===== src/Webhook/Lossless.antt =====
-- src/webhook.rs, `dispatch` and `drain_dlq` without a cache: what is drained.
use mathlib.Core.List.{append-nil, append_assoc, map-append}
use proof_stell_contract.Base.{
  ℕ, subst, ◌+◌, ◌==◌, ◌≤◌, ◌<◌, ◌≡◌, refl, arith, if◌then◌else◌, false, Option, none, some,
  Option-cases, inl, inr, List, [], ◌∷◌, ◌++◌, map, length, ap, ◌∙◌, sym, length-append,
}
use proof_stell_contract.Base.Words.{as_u32}
use proof_stell_contract.Audit.Events.{Event}
use proof_stell_contract.Cache.InMemory.{Text, InMemoryCache}
use proof_stell_contract.Webhook.Dispatch.{
  Network, WebhookDispatcher, DeadLetterEntry, max_dlq_depth, attempt_from, push_bounded,
  deliver_with_retry, deliver_all, dispatch, deduplicate,
}
use proof_stell_contract.Webhook.Rounds.{Rounds, done, reached, lost, run-Delivered, run-Refused}
use proof_stell_contract.Webhook.Drain.{drain_dlq, dlq_depth}
use proof_stell_contract.Webhook.Emptied.{dlq_depth-drain_dlq}

push_bounded-room :
    (entry : DeadLetterEntry) (dlq : List DeadLetterEntry)
    → length dlq < max_dlq_depth
    → push_bounded entry dlq ≡ dlq ++ entry ∷ []
push_bounded-room entry [] h = refl
push_bounded-room entry (oldest ∷ dlq) h = ground arith

-- Where a letter is for, and its event.
abbrev pub addressed : DeadLetterEntry → Text × Event
addressed entry = (entry.url, entry.payload)

module _ (network : Network) where
  open network use {World}

  module _ (url : Text) (event : Event) (d : WebhookDispatcher network) where
    abbrev outcome : Option Text × World
    outcome = attempt_from network d.config url event (d.config.max_retries + 1) 0 [] d.world

    deliver-delivered :
        outcome.0 ≡ none → deliver_with_retry network url event d ≡ record d { world = outcome.1 }
    unfolding deliver_with_retry
    deliver-delivered p = rw p refl

    abbrev letter_for : Text → DeadLetterEntry
    letter_for error = record {
      url = url;
      payload = event;
      attempts = as_u32 (d.config.max_retries + 1);
      last_error = error;
    }

    deliver-refused :
        (error : Text)
        → outcome.0 ≡ some error
        → d.cache ≡ none
        → length d.dlq < max_dlq_depth
        → deliver_with_retry network url event d
          ≡ record d { world = outcome.1; dlq = d.dlq ++ letter_for error ∷ [] }
    unfolding deliver_with_retry
    deliver-refused error p q room = rw (p, q, push_bounded-room _ d.dlq room) refl

  deliver_all-step :
      (url : Text) (urls : List Text) (event : Event) (d d' : WebhookDispatcher network)
      → deliver_with_retry network url event d ≡ d'
      → deliver_all network (url ∷ urls) event d ≡ deliver_all network urls event d'
  unfolding deliver_all
  deliver_all-step url urls event d d' p = ap (λ x. deliver_all network urls event x) p

  -- What a dispatch without a cache comes to: the letters of the URLs that refuse.
  abbrev Outcome :
      WebhookDispatcher network → List Text → Event → WebhookDispatcher network → Type 0
  Outcome d urls event after =
      (after.cache ≡ none)
      × ((letters : List (Text × Event)) × Rounds network d.config event urls d.world letters
            after.world
          × (map addressed after.dlq ≡ map addressed d.dlq ++ letters))

  deliver_all-Outcome :
      (urls : List Text) (event : Event) (d : WebhookDispatcher network)
      → d.cache ≡ none
      → length d.dlq + length urls ≤ max_dlq_depth
      → Outcome d urls event (deliver_all network urls event d)
  unfolding deliver_all
  deliver_all-Outcome [] event d q room = (q, ([], done, sym (append-nil (map addressed d.dlq))))
  deliver_all-Outcome (url ∷ urls) event d q room = elim (Option-cases (outcome url event d).0) [
    | inl p ↦
        let d' : WebhookDispatcher network = record d { world = (outcome url event d).1 } in
        let (same, (letters, rounds, kept)) = deliver_all-Outcome urls event d' q (omega arith) in
        rw (deliver_all-step url urls event d d' (deliver-delivered url event d p)) (
          same,
          (
            letters,
            reached (run-Delivered network d.config url event _ 0 [] d.world p) rounds,
            kept,
          ),
        )
    | inr (error, p) ↦
        let letter = letter_for url event d error in
        let d' : WebhookDispatcher network = record d {
          world = (outcome url event d).1;
          dlq = d.dlq ++ letter ∷ [];
        } in
        let (same, (letters, rounds, kept)) =
          deliver_all-Outcome urls event d' q (omega (arith, length-append d.dlq (letter ∷ []))) in
        rw
          (deliver_all-step url urls event d d'
            (deliver-refused url event d error p q (omega arith)))
          (
            same,
            (
              (url, event) ∷ letters,
              lost (run-Refused network d.config url event _ 0 [] d.world p) rounds,
              kept
                  ∙ ap (λ l. l ++ letters) (map-append addressed d.dlq (letter ∷ []))
                  ∙ append_assoc (map addressed d.dlq) ((url, event) ∷ []) letters,
            ),
          )
  ]

  unless_empty :
      (urls : List Text) (event : Event) (d : WebhookDispatcher network)
      → (if length urls == 0 then d else deliver_all network urls event d)
        ≡ deliver_all network urls event d
  unfolding deliver_all
  unless_empty [] event d = refl
  unless_empty (url ∷ urls) event d =
      let h : length (url ∷ urls) == 0 ≡ false = ground arith in rw h refl

  deduplicate-none :
      (event : Event) (c : Option InMemoryCache) (ttl now : ℕ)
      → c ≡ none
      → deduplicate event c ttl now ≡ (false, c)
  deduplicate-none event c ttl now p = rw p refl

  dispatch-plain :
      (event : Event) (d : WebhookDispatcher network)
      → d.cache ≡ none
      → dispatch network event d ≡ deliver_all network d.config.urls event d
  unfolding dispatch
  dispatch-plain event d q =
      rw (deduplicate-none event d.cache d.config.deduplication_ttl (network.now d.world) q)
        (unless_empty d.config.urls event d)

  drain_dlq-plain :
      (d : WebhookDispatcher network) → d.cache ≡ none → (drain_dlq network d).0 ≡ d.dlq
  unfolding drain_dlq
  drain_dlq-plain d q = rw q refl

  -- Without a cache, and as long as there is room in the queue, a dispatch loses nothing: the URLs are
  -- tried in order, each until an attempt is answered with success and at most once more than the
  -- retries; what is drained afterwards are the letters from before and then, in order, one for each
  -- URL whose attempts were all refused, with the event; and then there are none left.
  pub drain_dlq-dispatch :
      (event : Event) (d : WebhookDispatcher network)
      → d.cache ≡ none
      → length d.dlq + length d.config.urls ≤ max_dlq_depth
      → (letters : List (Text × Event)) × Rounds network d.config event d.config.urls d.world
          letters
          (dispatch network event d).world
        × (map addressed (drain_dlq network (dispatch network event d)).0
            ≡ map addressed d.dlq ++ letters)
        × ((dlq_depth network (drain_dlq network (dispatch network event d)).1).0 ≡ 0)
  drain_dlq-dispatch event d q room =
      let after : WebhookDispatcher network = deliver_all network d.config.urls event d in
      let (same, (letters, rounds, kept)) = deliver_all-Outcome d.config.urls event d q room in
      (
        letters,
        subst (λ x. Rounds network d.config event d.config.urls d.world letters x.world)
            (sym (dispatch-plain event d q)) rounds,
        rw (dispatch-plain event d q, drain_dlq-plain after same) kept,
        dlq_depth-drain_dlq network (dispatch network event d),
      )
