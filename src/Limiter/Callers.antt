-- ===== src/Limiter/Callers.antt =====
-- src/rate_limit.rs, `AtomicTokenBucket::try_consume`: callers that share a bucket, their loads and
-- compare-and-swaps interleaved in any order.
pub mod Linear
use mathlib.Core.List.{Mem, mem-cons_self, mem-cons_of_mem}
use proof_stell_contract.Base.{
  ℕ, ◌==◌, ◌≡◌, refl, sym, subst, ◌∙◌, arith, if◌then◌else◌, Bool, true, false, ◌||◌, not,
  Bool-cases, inl, inr, if_true, if_false, List, [], ◌∷◌,
}
use proof_stell_contract.Limiter.Bucket.{
  Quota, ConsumeOutcome, outcome, next_word, idle, idle_outcome, try_consume,
}

-- A caller of `try_consume` about to load, about to swap the word it loaded, or returned.
pub data Caller : Type 0 where
  loading : ℕ → Caller
  swapping : ℕ → ℕ → Caller
  returned : ℕ → ConsumeOutcome → Caller

-- A call that has taken effect, with the second that its caller read.
pub record Call : Type 0 where
  pub caller : ℕ
  pub now : ℕ
  pub result : ConsumeOutcome

pub record State : Type 0 where
  pub callers : ℕ → Caller
  pub word : ℕ
  -- Oldest last.
  pub log : List Call

abbrev pub place : ℕ → Caller → (ℕ → Caller) → ℕ → Caller
place i c callers j = if j == i then c else callers j

-- A load; a word that needs no store ends the call there.
abbrev pub load : Quota → ℕ → ℕ → State → State
load b i now s =
    if idle b now s.word
    then record {
      callers = place i (Caller.returned now idle_outcome) s.callers;
      word = s.word;
      log = record { caller = i; now = now; result = idle_outcome } ∷ s.log;
    }
    else record s { callers = place i (Caller.swapping now s.word) s.callers }

-- `compare_exchange_weak`: it fails where the word has changed, and may fail where it has not.
abbrev pub swap : Quota → ℕ → Bool → ℕ → ℕ → State → State
swap b i spurious now cur s =
    if spurious || not (s.word == cur)
    then record s { callers = place i (Caller.loading now) s.callers }
    else record {
      callers = place i (Caller.returned now (outcome b now cur)) s.callers;
      word = next_word b now cur;
      log = record { caller = i; now = now; result = outcome b now cur } ∷ s.log;
    }

unfoldable pub act : Quota → ℕ → Bool → Caller → State → State
act b i spurious (Caller.loading now) s = load b i now s
act b i spurious (Caller.swapping now cur) s = swap b i spurious now cur s
act b i spurious (Caller.returned now o) s = s

-- The caller that moves at each moment, and whether its swap fails without a reason.
unfoldable pub run : Quota → List (ℕ × Bool) → State → State
run b [] s = s
run b ((i, spurious) ∷ schedule) s = run b schedule (act b i spurious (s.callers i) s)

-- The calls, one after the other and none inside another, take the word from the first to the last.
unfoldable pub Replays : Quota → List Call → ℕ → ℕ → Type 0
Replays b [] first last = first ≡ last
Replays b (c ∷ log) first last =
    (before : ℕ) × Replays b log first before × (try_consume b c.now before ≡ (c.result, last))

-- Callers that read the clock, and have done nothing else.
unfoldable pub start : (ℕ → ℕ) → ℕ → State
start clock word = record { callers = λ i. Caller.loading (clock i); word = word; log = [] }
