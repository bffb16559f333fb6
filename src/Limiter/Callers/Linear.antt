-- ===== src/Limiter/Callers/Linear.antt =====
-- src/rate_limit.rs, `AtomicTokenBucket::try_consume`: the order in which the
-- calls of interleaved callers take effect.
use mathlib.Core.List.{Mem, mem-cons_self, mem-cons_of_mem}
use proof_stell_contract.Base.{
  ℕ, ◌==◌, ◌≡◌, refl, sym, subst, ◌∙◌, arith, Bool, true, false, ◌||◌, not, Bool-cases, inl, inr,
  if_true, if_false, List, [], ◌∷◌,
}
use proof_stell_contract.Limiter.Bucket.{
  Quota, ConsumeOutcome, outcome, next_word, idle, idle_outcome, try_consume,
}
use proof_stell_contract.Limiter.Callers.{
  Caller, Call, State, place, load, swap, act, run, Replays, start,
}

-- A caller swaps only over a word for which it has something to store.
abbrev Held : Quota → (ℕ → Caller) → Type 0
Held b callers = (i now cur : ℕ) → callers i ≡ Caller.swapping now cur → idle b now cur ≡ false

place-Held :
    (b : Quota) (i : ℕ) (c : Caller) (callers : ℕ → Caller)
    → ((now cur : ℕ) → c ≡ Caller.swapping now cur → idle b now cur ≡ false)
    → Held b callers
    → Held b (place i c callers)
place-Held b i c callers new old j now cur p = elim (Bool-cases (j == i)) [
  | inl q ↦ new now cur (sym (if_true _ _ q) ∙ p)
  | inr q ↦ old j now cur (sym (if_false _ _ q) ∙ p)
]

try_consume-idle :
    (b : Quota) (now word : ℕ)
    → idle b now word ≡ true
    → try_consume b now word ≡ (idle_outcome, word)
unfolding try_consume
try_consume-idle b now word p = rw p refl

try_consume-stores :
    (b : Quota) (now word : ℕ)
    → idle b now word ≡ false
    → try_consume b now word ≡ (outcome b now word, next_word b now word)
unfolding try_consume
try_consume-stores b now word p = rw p refl

record Linear (b : Quota) (first : ℕ) (s : State) : Type 0 where
  replays : Replays b s.log first s.word
  held : Held b s.callers

load-Linear :
    (b : Quota) (first i now : ℕ) (s : State) → Linear b first s → Linear b first (load b i now s)
unfolding Replays
load-Linear b first i now s l = elim (Bool-cases (idle b now s.word)) [
  | inl p ↦ rw p (record {
    replays = (s.word, l.replays, try_consume-idle b now s.word p);
    held = place-Held b i _ s.callers (λ n c q. cc q) l.held;
  })
  | inr p ↦ rw p (record {
    replays = l.replays;
    held =
        place-Held b i _ s.callers
          (λ n c q. let h : n ≡ now = cc q in let k : c ≡ s.word = cc q in rw (h, k) p) l.held;
  })
]

unchanged : (x : Bool) (a c : ℕ) → (x || not (a == c)) ≡ false → a ≡ c
unchanged x a c p = ground arith

swap-Linear :
    (b : Quota) (first i : ℕ) (spurious : Bool) (now cur : ℕ) (s : State)
    → idle b now cur ≡ false
    → Linear b first s
    → Linear b first (swap b i spurious now cur s)
unfolding Replays
swap-Linear b first i spurious now cur s busy l =
    elim (Bool-cases (spurious || not (s.word == cur))) [
      | inl p ↦
          rw p (record {
            replays = l.replays;
            held = place-Held b i _ s.callers (λ n c q. cc q) l.held;
          })
      | inr p ↦ rw p (record {
        replays = (
          cur,
          subst (λ w. Replays b s.log first w) (unchanged _ _ _ p) l.replays,
          try_consume-stores b now cur busy,
        );
        held = place-Held b i _ s.callers (λ n c q. cc q) l.held;
      })
    ]

act-Linear :
    (b : Quota) (first i : ℕ) (spurious : Bool) (s : State)
    → Linear b first s
    → Linear b first (act b i spurious (s.callers i) s)
unfolding act
act-Linear b first i spurious s l = go (s.callers i) refl
  where
    go : (c : Caller) → s.callers i ≡ c → Linear b first (act b i spurious c s)
    go (Caller.loading now) p = load-Linear b first i now s l
    go (Caller.swapping now cur) p = swap-Linear b first i spurious now cur s (l.held i now cur p) l
    go (Caller.returned now o) p = l

run-Linear :
    (b : Quota) (first : ℕ) (schedule : List (ℕ × Bool)) (s : State)
    → Linear b first s
    → Linear b first (run b schedule s)
unfolding run
run-Linear b first [] s l = l
run-Linear b first ((i, spurious) ∷ schedule) s l =
    run-Linear b first schedule _ (act-Linear b first i spurious s l)

-- What a caller has returned is the result of a call of its own that took effect.
abbrev pub Known : (ℕ → Caller) → List Call → Type 0
Known callers log =
    (i now : ℕ) (o : ConsumeOutcome)
    → callers i ≡ Caller.returned now o
    → Mem (record { caller = i; now = now; result = o }) log

place-Known :
    (i : ℕ) (c : Caller) (callers : ℕ → Caller) (log : List Call)
    → ((now : ℕ) (o : ConsumeOutcome)
        → c ≡ Caller.returned now o
        → Mem (record { caller = i; now = now; result = o }) log)
    → Known callers log
    → Known (place i c callers) log
place-Known i c callers log new old j now o p = elim (Bool-cases (j == i)) [
  | inl q ↦
      let same : j ≡ i = ground arith in
      subst (λ k. Mem (record { caller = k; now = now; result = o }) log) (sym same)
        (new now o (sym (if_true _ _ q) ∙ p))
  | inr q ↦ old j now o (sym (if_false _ _ q) ∙ p)
]

-- A caller that returns as its call enters the log.
return-Known :
    (i now : ℕ) (o : ConsumeOutcome) (callers : ℕ → Caller) (log : List Call)
    → Known callers log
    → Known
        (place i (Caller.returned now o) callers)
        (record { caller = i; now = now; result = o } ∷ log)
return-Known i now o callers log known =
    place-Known i _ callers _
      (λ n r q. let h : n ≡ now = cc q in let k : r ≡ o = cc q in rw (h, k) mem-cons_self)
      (λ j n r q. mem-cons_of_mem _ (known j n r q))

act-Known :
    (b : Quota) (i : ℕ) (spurious : Bool) (c : Caller) (s : State)
    → Known s.callers s.log
    → Known (act b i spurious c s).callers (act b i spurious c s).log
unfolding act
act-Known b i spurious (Caller.loading now) s k = elim (Bool-cases (idle b now s.word)) [
  | inl p ↦ rw p (return-Known i now _ s.callers s.log k)
  | inr p ↦ rw p (place-Known i _ s.callers s.log (λ n r q. cc q) k)
]
act-Known b i spurious (Caller.swapping now cur) s k =
    elim (Bool-cases (spurious || not (s.word == cur))) [
      | inl p ↦ rw p (place-Known i _ s.callers s.log (λ n r q. cc q) k)
      | inr p ↦ rw p (return-Known i now _ s.callers s.log k)
    ]
act-Known b i spurious (Caller.returned now o) s k = k

run-Known :
    (b : Quota) (schedule : List (ℕ × Bool)) (s : State)
    → Known s.callers s.log
    → Known (run b schedule s).callers (run b schedule s).log
unfolding run
run-Known b [] s k = k
run-Known b ((i, spurious) ∷ schedule) s k =
    run-Known b schedule _ (act-Known b i spurious (s.callers i) s k)

-- However the loads and the swaps of the callers interleave, and whichever swaps fail without a reason,
-- the calls that took effect are, in that order, calls of `try_consume` that no other interleaves with,
-- and lead from the first word to the last; and what a caller has returned is the result of a call of
-- its own among them.
pub run-Replays :
    (b : Quota) (clock : ℕ → ℕ) (word : ℕ) (schedule : List (ℕ × Bool))
    → Replays b
        (run b schedule (start clock word)).log
        word
        (run b schedule (start clock word)).word
      × Known (run b schedule (start clock word)).callers (run b schedule (start clock word)).log
unfolding start Replays
run-Replays b clock word schedule = (
  (run-Linear b word schedule _ (record { replays = refl; held = λ i n c p. cc p })).replays,
  run-Known b schedule _ (λ i n o p. cc p),
)
