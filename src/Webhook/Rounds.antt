-- ===== src/Webhook/Rounds.antt =====
-- src/webhook.rs, `deliver_with_retry` and `dispatch`: what becomes of the URLs, by the answers of the
-- network alone.
use proof_stell_contract.Base.{
  ℕ, zero, suc, ◌+◌, ◌≡◌, refl, sym, ap, ◌∙◌, Option, none, some, Option-cases, inl, inr, List, [],
  ◌∷◌,
}
use proof_stell_contract.Audit.Events.{Event}
use proof_stell_contract.Cache.InMemory.{Text}
use proof_stell_contract.Webhook.Dispatch.{Network, WebhookDispatcherConfig, wait, attempt_from}

module _ (network : Network) where
  open network use {World}

  -- What became of one URL, by the answers that the network gives, with the number of attempts that
  -- remain, the number of the next, and the world before and after: an attempt is answered with
  -- success, and is the last; or all are refused.
  pub data Delivered (config : WebhookDispatcherConfig) (url : Text) (event : Event)
      : ℕ → ℕ → World → World → Type 0 where
    accepted :
        {left attempt : ℕ} {w w' : World}
        → network.send_once url event (wait network config attempt w) ≡ (none, w')
        → Delivered config url event (suc left) attempt w w'
    retried :
        {left attempt : ℕ} {w w' w'' : World} (error : Text)
        → network.send_once url event (wait network config attempt w) ≡ (some error, w')
        → Delivered config url event left (suc attempt) w' w''
        → Delivered config url event (suc left) attempt w w''

  pub data Refused (config : WebhookDispatcherConfig) (url : Text) (event : Event)
      : ℕ → ℕ → World → World → Type 0 where
    spent : {attempt : ℕ} {w : World} → Refused config url event 0 attempt w w
    refused :
        {left attempt : ℕ} {w w' w'' : World} (error : Text)
        → network.send_once url event (wait network config attempt w) ≡ (some error, w')
        → Refused config url event left (suc attempt) w' w''
        → Refused config url event (suc left) attempt w w''

  -- The URLs one after the other, with as many retries each as configured: the URLs that are refused,
  -- each with the event, and the world in the end.
  pub data Rounds (config : WebhookDispatcherConfig) (event : Event)
      : List Text → World → List (Text × Event) → World → Type 0 where
    done : {w : World} → Rounds config event [] w [] w
    reached :
        {url : Text} {urls : List Text} {w w' w'' : World} {letters : List (Text × Event)}
        → Delivered config url event (config.max_retries + 1) 0 w w'
        → Rounds config event urls w' letters w''
        → Rounds config event (url ∷ urls) w letters w''
    lost :
        {url : Text} {urls : List Text} {w w' w'' : World} {letters : List (Text × Event)}
        → Refused config url event (config.max_retries + 1) 0 w w'
        → Rounds config event urls w' letters w''
        → Rounds config event (url ∷ urls) w ((url, event) ∷ letters) w''

  module _ (config : WebhookDispatcherConfig) (url : Text) (event : Event) where
    abbrev sent : ℕ → World → Option Text × World
    sent attempt w = network.send_once url event (wait network config attempt w)

    abbrev run : ℕ → ℕ → Text → World → Option Text × World
    run = attempt_from network config url event

    paired :
        (attempt : ℕ) (w : World) {answer : Option Text}
        → (sent attempt w).0 ≡ answer
        → sent attempt w ≡ (answer, (sent attempt w).1)
    paired attempt w q = ap (λ (r : Option Text). (r, (sent attempt w).1)) q

    -- An attempt that succeeds ends the loop, one that fails goes on with it.
    run-accepted :
        (left attempt : ℕ) (last : Text) (w w' : World)
        → network.send_once url event (wait network config attempt w) ≡ (none, w')
        → run (suc left) attempt last w ≡ (none, w')
    unfolding attempt_from
    run-accepted left attempt last w w' p = rw p refl

    run-refused :
        (left attempt : ℕ) (last error : Text) (w w' : World)
        → network.send_once url event (wait network config attempt w) ≡ (some error, w')
        → run (suc left) attempt last w ≡ run left (suc attempt) error w'
    unfolding attempt_from
    run-refused left attempt last error w w' p = rw p refl

    run-none : (attempt : ℕ) (last : Text) (w : World) → run 0 attempt last w ≡ (some last, w)
    unfolding attempt_from
    run-none attempt last w = refl

    pub run-Delivered :
        (left attempt : ℕ) (last : Text) (w : World)
        → (run left attempt last w).0 ≡ none
        → Delivered config url event left attempt w (run left attempt last w).1
    run-Delivered zero attempt last w p = cc (ap (λ r. r.0) (run-none attempt last w), p)
    run-Delivered (suc left) attempt last w p = elim (Option-cases (sent attempt w).0) [
      | inl q ↦
          let answered = paired attempt w q in
          rw (run-accepted left attempt last w (sent attempt w).1 answered) (accepted answered)
      | inr (error, q) ↦
          let answered = paired attempt w q in
          let step = run-refused left attempt last error w (sent attempt w).1 answered in
          rw step (
            retried error answered (
              run-Delivered left (suc attempt) error (sent attempt w).1
                (sym (ap (λ r. r.0) step) ∙ p)))
    ]

    pub run-Refused :
        (left attempt : ℕ) (last : Text) (w : World) {error : Text}
        → (run left attempt last w).0 ≡ some error
        → Refused config url event left attempt w (run left attempt last w).1
    run-Refused zero attempt last w p = rw (run-none attempt last w) spent
    run-Refused (suc left) attempt last w p = elim (Option-cases (sent attempt w).0) [
      | inl q ↦
          let answered = paired attempt w q in
          cc (ap (λ r. r.0) (run-accepted left attempt last w (sent attempt w).1 answered), p)
      | inr (error, q) ↦
          let answered = paired attempt w q in
          let step = run-refused left attempt last error w (sent attempt w).1 answered in
          rw step (
            refused error answered (
              run-Refused left (suc attempt) error (sent attempt w).1
                (sym (ap (λ r. r.0) step) ∙ p)))
    ]
