-- ===== src/Quotas/Limits.antt =====
-- bot/internal/quotas/quotas.go: Limits, Validate and warnThreshold. The fields are int64.
use undelete.Base.{
  ℕ, ◌+◌, ◌*◌, ◌/◌, ◌%◌, ◌≤◌, ◌<◌, ◌≡◌, ap, ◌↔◌, ◌||◌, Option, none, some, arith, if◌then◌else◌,
}
use undelete.Base.Int.{
  ℤ, pos, pos_part, leb_ℤ, max_int64, add64, mul64, quot64, rem64, add64_pos, mul64_pos,
}

pub data QuotaKind : Type 0 where
  messages media_files media_bytes capture_rate : QuotaKind

pub record Limits : Type 0 where
  pub max_messages : ℤ
  pub max_media_files : ℤ
  pub max_media_bytes : ℤ
  pub captures_per_minute : ℤ
  pub warn_percent : ℤ

-- The limit that `Validate` refuses, with its value.
pub data LimitError : Type 0 where
  bad_max_messages bad_max_media_files bad_max_media_bytes : ℤ → LimitError
  bad_captures_per_minute bad_warn_percent : ℤ → LimitError

-- `none` is the nil error.
unfoldable pub validate : Limits → Option LimitError
validate l =
    if leb_ℤ max_messages (pos 0)
    then some (bad_max_messages max_messages)
    else (if leb_ℤ max_media_files (pos 0)
        then some (bad_max_media_files max_media_files)
        else (if leb_ℤ max_media_bytes (pos 0)
            then some (bad_max_media_bytes max_media_bytes)
            else (if leb_ℤ captures_per_minute (pos 0)
                then some (bad_captures_per_minute captures_per_minute)
                else (if leb_ℤ warn_percent (pos 0) || leb_ℤ (pos 100) warn_percent
                    then some (bad_warn_percent warn_percent)
                    else none))))
  where
    open l use {max_messages, max_media_files, max_media_bytes, captures_per_minute, warn_percent}

unfoldable pub default_limits : Limits
default_limits = record {
  max_messages = pos 100000;
  max_media_files = pos 10000;
  max_media_bytes = pos (5 * 1073741824);
  captures_per_minute = pos 300;
  warn_percent = pos 80;
}

-- The usage at which the alert fires, in wrapping int64 arithmetic.
unfoldable pub warn_threshold : Limits → ℤ → ℤ
warn_threshold l limit =
    add64 (mul64 (quot64 limit 100) l.warn_percent)
      (quot64 (mul64 (rem64 limit 100) l.warn_percent) 100)

unfoldable pub limit_of : Limits → QuotaKind → ℤ
limit_of l media_files = l.max_media_files
limit_of l media_bytes = l.max_media_bytes
limit_of l messages = l.max_messages
limit_of l capture_rate = l.max_messages

-- What `Validate` promises of limits that it lets pass.
abbrev pub IsPositive : ℤ → Type 0
IsPositive z = 0 < pos_part z

pub record IsValid (l : Limits) : Type 0 where
  pub messages_positive : IsPositive l.max_messages
  pub media_files_positive : IsPositive l.max_media_files
  pub media_bytes_positive : IsPositive l.max_media_bytes
  pub captures_positive : IsPositive l.captures_per_minute
  pub percent_positive : IsPositive l.warn_percent
  pub percent_below : pos_part l.warn_percent < 100

-- `Validate` passes exactly the limits whose fields are all positive, the percentage below 100.
pub validate-IsValid : (l : Limits) → (validate l ≡ none) ↔ IsValid l
unfolding validate
validate-IsValid l = ground arith

split_product : (n p : ℕ) → n * p / 100 ≡ n / 100 * p + n % 100 * p / 100
split_product n p =
    let e : n ≡ 100 * (n / 100) + n % 100 = omega arith in
    let f : n * p ≡ (100 * (n / 100) + n % 100) * p = ap (λ t. t * p) e in omega arith

below_limit : (n p : ℕ) → 0 < n → p < 100 → n * p / 100 < n
below_limit n p hn hp = let h : n * p < n * 100 = grind arith in omega arith

-- The partial results of the two products stay in range.
quotient_fits : (n p : ℕ) → n ≤ max_int64 → p < 100 → n / 100 * p ≤ max_int64
quotient_fits n p hn hp = let h : n / 100 * p ≤ n / 100 * 100 = grind arith in omega arith

remainder_fits : (n p : ℕ) → p < 100 → n % 100 * p ≤ 9900
remainder_fits n p hp = let h : n % 100 * p ≤ n % 100 * 100 = grind arith in omega arith

-- For a percentage from 1 to 99 and any positive int64 limit, the threshold is the exact
-- ⌊limit · percent / 100⌋, with no overflow on the way, and lies below the limit.
pub warn_threshold_lem :
    (l : Limits) (limit percent : ℕ)
    → 0 < limit
    → limit ≤ max_int64
    → l.warn_percent ≡ pos percent
    → percent < 100
    → (warn_threshold l (pos limit) ≡ pos (limit * percent / 100)) × (limit * percent / 100 < limit)
unfolding warn_threshold quot64 rem64
warn_threshold_lem l n p hn hm e hp =
    let fits = quotient_fits n p hm hp in
    let small = remainder_fits n p hp in
    let below = below_limit n p hn hp in
    (
      rw (
        e,
        mul64_pos (n / 100) p (quotient_fits n p hm hp),
        mul64_pos (n % 100) p (omega arith),
        add64_pos (n / 100 * p) (n % 100 * p / 100) (omega (arith, split_product n p)),
        ← split_product n p,
      ),
      below,
    )
