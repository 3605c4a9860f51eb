-- ===== src/Telegram/Poll.antt =====
-- bot/internal/telegram/poller.go: the waits of Run after a failed getUpdates. A duration is an int64
-- number of nanoseconds.
use undelete.Base.{ℕ, zero, suc, ◌*◌, ◌^◌, ◌≡◌, refl, Option, none, some, if◌then◌else◌, ltb, arith}
use undelete.Base.Int.{ℤ, pos, ltb_ℤ, mul64}

abbrev pub second : ℕ
second = 1000000000

abbrev pub min_backoff : ℕ
min_backoff = 1 * second

abbrev pub max_backoff : ℕ
max_backoff = 60 * second

-- The error of the poll: the retry_after of a rate limit, or `none`.
unfoldable pub poll_wait : ℕ → Option ℤ → ℤ
poll_wait backoff none = pos backoff
poll_wait backoff (some retry_after) =
    let wait = mul64 retry_after (pos second) in
    if ltb_ℤ (pos max_backoff) wait then pos max_backoff else wait

-- The backoff of the loop after a failure that is no rate limit.
unfoldable pub next_backoff : ℕ → ℕ
next_backoff backoff = if ltb max_backoff (backoff * 2) then max_backoff else backoff * 2

-- The backoff after a number of such failures in a row.
unfoldable pub backoff_after : ℕ → ℕ
unfolding next_backoff
backoff_after zero = min_backoff
backoff_after (suc n) = next_backoff (backoff_after n)

-- After n failures in a row that are no rate limit, the backoff is 2^n times the least one, capped at
-- the greatest one.
pub backoff_after_lem :
    (n : ℕ)
    → backoff_after n
      ≡ (if ltb max_backoff (2 ^ n * min_backoff) then max_backoff else 2 ^ n * min_backoff)
unfolding backoff_after
backoff_after_lem zero = refl
backoff_after_lem (suc n) = ground (arith, backoff_after_lem n)
