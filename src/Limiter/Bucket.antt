-- ===== src/Limiter/Bucket.antt =====
-- src/rate_limit.rs, `AtomicTokenBucket`: the packed state and what one pass of a caller does to it.
use Prim.Native.Nat.{bit_xor}
use proof_stell_contract.Base.{
  ℕ, ◌+◌, ◌-◌, ◌*◌, ◌/◌, ◌%◌, ◌^◌, ◌==◌, ltb, leb, min, max, if◌then◌else◌, Bool, false, ◌&&◌, List,
  [], ◌∷◌,
}
use proof_stell_contract.Base.Words.{u32_max, as_u32, as_u64, saturating_sub, saturating_mul_u64}

abbrev pub milli : ℕ
milli = 1000

-- The seconds of the last refill in the high 32 bits, the milli-tokens in the low ones.
abbrev pub pack : ℕ → ℕ → ℕ
pack secs tokens = secs * 2 ^ 32 + tokens

abbrev pub unpack : ℕ → ℕ × ℕ
unpack v = (as_u32 (v / 2 ^ 32), as_u32 v)

-- FNV-1a over the bytes of the issuer.
abbrev fnv1a : ℕ → List ℕ → ℕ
fnv1a hash [] = hash
fnv1a hash (b ∷ bs) = fnv1a (as_u64 (bit_xor hash b * 0x0100_0000_01b3)) bs

unfoldable pub deterministic_jitter : List ℕ → ℕ → ℕ
deterministic_jitter issuer window =
    if window == 0 then 0 else fnv1a 0xcbf2_9ce4_8422_2325 issuer % window

pub record ConsumeOutcome : Type 0 where
  pub granted : Bool
  pub refilled_milli : ℕ
  pub reset : Bool

-- The immutable part of a bucket: its atomic word is passed beside it.
pub record Quota : Type 0 where
  pub capacity_milli : ℕ
  pub refill_milli_per_sec : ℕ
  pub jitter_offset : ℕ

abbrev pub clamp : ℕ → ℕ → ℕ → ℕ
clamp n low high = min (max n low) high

abbrev max_units : ℕ
max_units = max (u32_max / milli) 1

unfoldable pub new : ℕ → ℕ → ℕ → List ℕ → ℕ → Quota × ℕ
new burst per_second jitter_seconds issuer now =
    let capacity = clamp burst 1 max_units * milli in
    (
      record {
        capacity_milli = capacity;
        refill_milli_per_sec = clamp per_second 1 max_units * milli;
        jitter_offset = deterministic_jitter issuer jitter_seconds;
      },
      pack (as_u32 now) capacity,
    )

-- The sum is one of `u64`, without a check against overflow.
unfoldable pub refilled : Quota → ℕ → ℕ → ℕ → ℕ
refilled b tokens last now =
    let elapsed = saturating_sub now last in
    let add = saturating_mul_u64 elapsed b.refill_milli_per_sec in
    as_u32 (min (as_u64 (tokens + add)) b.capacity_milli)

-- A pass of the loop of `try_consume` from the word `cur` that it loaded: the word that it would
-- store, and what it returns if it does.
unfoldable pub next_word : Quota → ℕ → ℕ → ℕ
next_word b now cur =
    let tokens = refilled b (unpack cur).1 (unpack cur).0 now in
    if leb milli tokens then pack (as_u32 now) (tokens - milli) else pack (as_u32 now) tokens

unfoldable pub outcome : Quota → ℕ → ℕ → ConsumeOutcome
outcome b now cur =
    let before = (unpack cur).1 in
    let tokens = refilled b before (unpack cur).0 now in
    record {
      granted = leb milli tokens;
      refilled_milli = saturating_sub tokens before;
      reset = (before == 0) && ltb 0 tokens;
    }

-- A pass that finds nothing to store returns without a compare-and-swap.
unfoldable pub idle : Quota → ℕ → ℕ → Bool
idle b now cur = if (outcome b now cur).granted then false else cur == next_word b now cur

abbrev pub idle_outcome : ConsumeOutcome
idle_outcome = record { granted = false; refilled_milli = 0; reset = false }

-- A call that no other one interleaves with.
unfoldable pub try_consume : Quota → ℕ → ℕ → ConsumeOutcome × ℕ
try_consume b now cur =
    if idle b now cur then (idle_outcome, cur) else (outcome b now cur, next_word b now cur)

abbrev pub div_ceil : ℕ → ℕ → ℕ
div_ceil a d = if a % d == 0 then a / d else a / d + 1

unfoldable pub reset_at : Quota → ℕ → ℕ → ℕ
reset_at b tokens now =
    let deficit = saturating_sub b.capacity_milli tokens in
    let secs_to_full =
      if b.refill_milli_per_sec == 0 then 0 else div_ceil deficit b.refill_milli_per_sec in
    now + secs_to_full + b.jitter_offset

unfoldable pub snapshot : Quota → ℕ → ℕ → ℕ × ℕ
snapshot b now word =
    let tokens = refilled b (unpack word).1 (unpack word).0 now in
    (tokens / milli, reset_at b tokens now)

unfoldable pub time_to_next_token : Quota → ℕ → ℕ → ℕ
time_to_next_token b now word =
    let tokens = refilled b (unpack word).1 (unpack word).0 now in
    if leb milli tokens
    then 0
    else if b.refill_milli_per_sec == 0
    then 1
    else max (div_ceil (milli - tokens) b.refill_milli_per_sec) 1

unfoldable pub last_seen : ℕ → ℕ
last_seen word = (unpack word).0
