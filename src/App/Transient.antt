-- ===== src/App/Transient.antt =====
-- bot/internal/app/transient.go: which failures of an update are retried, how often, and the waits
-- between. A duration is an int64 of nanoseconds, an instant a number of nanoseconds.
use undelete.Base.{
  ℕ, zero, suc, ◌+◌, ◌*◌, ◌-◌, ◌^◌, Bool, true, false, ◌&&◌, ◌||◌, not, Option, none, some, String,
  if◌then◌else◌, ltb, leb, ◌==◌, nat_comparable, string_comparable, nat_beq,
}
use undelete.Base.Int.{ℤ, pos, negsuc, int_comparable, leb_ℤ, ltb_ℤ, mul64, add64, quot64}
use undelete.Outbox.Store.{second}
use Prim.Native.String.{slice}

abbrev pub millisecond : ℕ
millisecond = 1000000

abbrev pub transient_attempts : ℕ
transient_attempts = 3

abbrev pub transient_base_delay : ℕ
transient_base_delay = 500 * millisecond

abbrev pub transient_max_wait : ℕ
transient_max_wait = 5 * second

abbrev pub transient_cooldown : ℕ
transient_cooldown = 30 * second

pub record ApiError : Type 0 where
  pub code : ℤ
  pub retry_after : ℤ

-- What `errors.Is`, `errors.As` and the tests of the database driver find in the chain of an error.
pub record Failure : Type 0 where
  pub is_canceled : Bool
  pub is_deadline : Bool
  pub api : Option ApiError
  pub pg_code : Option String
  pub pg_timeout : Bool
  pub pg_connect : Bool
  pub pg_safe_to_retry : Bool
  -- A net.Error, with its Timeout().
  pub net : Option Bool
  pub is_unexpected_eof : Bool

-- The codes that the switch lists and the two classes.
abbrev is_transient_code : String → Bool
is_transient_code code =
    (code == "40001")
    || ((code == "40P01")
        || ((code == "57P01")
            || ((code == "57P02")
                || ((code == "57P03") || ((slice code 0 2 == "08") || (slice code 0 2 == "53"))))))

unfoldable pub is_transient : Failure → Bool
is_transient e = if e.is_canceled || e.is_deadline then false else elim e.api [
  | some api ↦ (api.code == pos 429) || leb_ℤ (pos 500) api.code
  | none ↦ elim e.pg_code [
    | some code ↦ is_transient_code code
    | none ↦
        if e.pg_timeout
        then false
        else if e.pg_connect || e.pg_safe_to_retry
        then true
        else elim e.net [ some timeout ↦ not timeout | none ↦ e.is_unexpected_eof ]
  ]
]

abbrev is_rate_limited : ApiError → Bool
is_rate_limited api = (api.code == pos 429) && ltb_ℤ (pos 0) api.retry_after

abbrev pub min_ℤ : ℤ → ℤ → ℤ
min_ℤ a b = if leb_ℤ a b then a else b

-- `x + rand.N(n)`: the draw is below n, and `rand.N` panics on an n that is not positive.
abbrev pub jittered : (ℕ → ℕ) → ℤ → ℤ → Option ℤ
jittered draw x (pos zero) = none
jittered draw x (pos (suc n)) = some (add64 x (pos (draw (suc n))))
jittered draw x (negsuc n) = none

-- `baseDelay << (retry-1)`, for the few retries that there are.
abbrev pub backoff : ℕ → ℕ
backoff retry =
    let d = transient_base_delay * 2 ^ (retry - 1) in
    if leb d transient_max_wait then d else transient_max_wait

abbrev pub backoff_wait : (ℕ → ℕ) → ℕ → Option ℤ
backoff_wait draw retry =
    let d = pos (backoff retry) in let half = quot64 d 2 in jittered draw half (add64 half (pos 1))

abbrev pub throttled : (ℕ → ℕ) → ℤ → Option ℤ
throttled draw retry_after =
    let d = min_ℤ (mul64 retry_after (pos second)) (pos transient_max_wait) in
    jittered draw d (add64 (quot64 d 4) (pos 1))

-- `wait`; `draw n` is below n, and no result is a panic.
unfoldable pub wait : (ℕ → ℕ) → Failure → ℕ → Option ℤ
wait draw e retry = elim e.api [
  | none ↦ backoff_wait draw retry
  | some api ↦
      if is_rate_limited api then throttled draw api.retry_after else backoff_wait draw retry
]

-- What a run meets: the result of each attempt (none is success), whether each sleep ends before
-- the context does, the deadline of the degraded mode and the clock at its check, and the clock at
-- the end. Other shards share the deadline.
pub record World : Type 0 where
  pub attempt : ℕ → Option Failure
  pub sleeps : ℕ → Bool
  pub degraded_until : ℕ
  pub checked_at : ℕ
  pub ended_at : ℕ

-- What it did: the result, the number of attempts, and the deadline that it stores (0 is healthy).
-- `healthy` stores only over a deadline that is not 0, which is the same.
pub record Ran : Type 0 where
  pub result : Option Failure
  pub attempts : ℕ
  pub stored : Option ℕ

abbrev pub budget : World → ℕ
budget w =
    if not (nat_beq w.degraded_until 0) && ltb w.checked_at w.degraded_until
    then 1
    else transient_attempts

-- The loop: `left` turns remain, and `made` attempts were made, the last of which failed with `e`.
unfoldable pub retry_loop : World → ℕ → ℕ → Failure → Ran
retry_loop w zero made e = record {
  result = some e;
  attempts = made;
  stored = some (w.ended_at + transient_cooldown);
}
retry_loop w (suc left) made e =
    if not (w.sleeps made)
    then record { result = some e; attempts = made; stored = none }
    else elim (w.attempt made) [
      | none ↦ record { result = none; attempts = suc made; stored = some 0 }
      | some f ↦
          if is_transient f
          then retry_loop w left (suc made) f
          else record { result = some f; attempts = suc made; stored = none }
    ]

unfoldable pub run : World → Ran
run w = elim (w.attempt 0) [
  | none ↦ record { result = none; attempts = 1; stored = some 0 }
  | some e ↦
      if is_transient e
      then retry_loop w (budget w - 1) 1 e
      else record { result = some e; attempts = 1; stored = none }
]
