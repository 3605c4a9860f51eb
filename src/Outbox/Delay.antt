-- ===== src/Outbox/Delay.antt =====
-- bot/internal/outbox/worker.go: retryDelay, and the wait that a 429 asks for. A duration is an
-- int64 of nanoseconds.
use undelete.Base.{
  ℕ, zero, suc, ◌*◌, ◌^◌, ◌-◌, ◌≤◌, ◌<◌, ◌≡◌, arith, if◌then◌else◌, ltb, leb, Bool-cases, inl, inr,
  ltb→lt,
}
use undelete.Base.Int.{ℤ, pos, negsuc, ltb_ℤ, max_int64, mul64, mul64_pos}
use undelete.Outbox.Store.{second}
use native.Mathlib.Nat.{pow-suc}

-- Fifteen minutes.
abbrev pub max_backoff : ℕ
max_backoff = 900 * second

abbrev pub max_backoff_attempts : ℕ
max_backoff_attempts = 10

-- A day.
abbrev pub max_throttle_delay : ℕ
max_throttle_delay = 86400 * second

-- `math.Pow(2, attempts)` is exact for the exponents below 10 that reach it.
abbrev backoff_below : ℕ → ℕ
backoff_below attempts =
    let wait = 2 ^ attempts * second in if ltb max_backoff wait then max_backoff else wait

unfoldable pub retry_delay : ℤ → ℕ
retry_delay (negsuc n) = backoff_below 0
retry_delay (pos n) = if leb max_backoff_attempts n then max_backoff else backoff_below n

-- `time.Duration(apiErr.RetryAfter) * time.Second`, wrapping, under its cap.
unfoldable pub throttle_wait : ℤ → ℤ
throttle_wait retry_after =
    let wait = mul64 retry_after (pos second) in
    if ltb_ℤ (pos max_throttle_delay) wait then pos max_throttle_delay else wait

pow_pos : (n : ℕ) → 0 < 2 ^ n
pow_pos zero = omega arith
pow_pos (suc n) = omega (arith, pow-suc 2 n, pow_pos n)

pow_large : (n : ℕ) → 10 ≤ n → 1024 ≤ 2 ^ n
pow_large zero h = absurd (omega arith)
pow_large (suc n) h = elim (Bool-cases (ltb 9 n)) [
  | inl more ↦ omega (arith, pow-suc 2 n, pow_large n (ltb→lt 9 n more))
  | inr last ↦ let ten : n ≡ 9 = ground arith in rw ten (omega arith)
]

-- For every count of attempts the backoff is 2^attempts seconds capped at 15 minutes, so that the
-- cut at ten attempts changes nothing; it is at least a second and does not shrink from one attempt
-- to the next.
pub retry_delay_lem :
    (n : ℕ)
    → (retry_delay (pos n)
        ≡ (if ltb max_backoff (2 ^ n * second) then max_backoff else 2 ^ n * second))
      × (second ≤ retry_delay (pos n))
      × (retry_delay (pos n) ≤ retry_delay (pos (suc n)))
unfolding retry_delay
retry_delay_lem n = elim (Bool-cases (leb max_backoff_attempts n)) [
  | inl many ↦ let large = pow_large n (ground arith) in ground (arith, pow-suc 2 n)
  | inr few ↦ let positive = pow_pos n in let double = pow-suc 2 n in ground arith
]

-- A `retry_after` of up to 9223372036 s is waited for in full, but at most a day.
pub throttle_wait_lem :
    (n : ℕ)
    → n * second ≤ max_int64
    → throttle_wait (pos n) ≡ (if ltb 86400 n then pos max_throttle_delay else pos (n * second))
unfolding throttle_wait
throttle_wait_lem n h = rw (mul64_pos n second h) (ground arith)

-- The product overflows for a larger `retry_after`: from 9223372037 s to 18446744073 s the stored
-- wait is negative, so that the cap is missed and the alert is due again at once.
pub throttle_wait_overflows :
    (n : ℕ) → 9223372037 ≤ n → n ≤ 18446744073 → (m : ℕ) × (throttle_wait (pos n) ≡ negsuc m)
unfolding throttle_wait mul64
throttle_wait_overflows n h k = (2 ^ 64 - n * second - 1, ground arith)
