-- ===== src/Base/Int.antt =====
-- int64 as an integer that wraps.
use Prim.Native.Nat.{ℕ, zero, suc, ◌+◌, ◌-◌, ◌*◌, ◌/◌, ◌%◌, ◌^◌, ◌≤◌}
use mathlib.Core.Path.{◌≡◌}
use mathlib.Core.Logic.{◌↔◌}
use mathlib.Core.Bool.{Bool, true, false, ◌&&◌}
use native.Mathlib.Omega.{arith}
use undelete.Base.Tests.{ltb, leb, nat_beq, if◌then◌else◌, Comparable}

-- `negsuc n` is -(n + 1).
pub data ℤ : Type 0 where
  pos : ℕ → ℤ
  negsuc : ℕ → ℤ

abbrev pub pos_part : ℤ → ℕ
pos_part (pos n) = n
pos_part (negsuc n) = 0

abbrev pub neg_part : ℤ → ℕ
neg_part (pos n) = 0
neg_part (negsuc n) = suc n

abbrev pub leb_ℤ : ℤ → ℤ → Bool
leb_ℤ a b = leb (pos_part a + neg_part b) (pos_part b + neg_part a)

abbrev pub ltb_ℤ : ℤ → ℤ → Bool
ltb_ℤ a b = ltb (pos_part a + neg_part b) (pos_part b + neg_part a)

abbrev pub int_beq : ℤ → ℤ → Bool
int_beq (pos a) (pos b) = nat_beq a b
int_beq (negsuc a) (negsuc b) = nat_beq a b
int_beq _ _ = false

pub int_beq_iff : (a b : ℤ) → (int_beq a b ≡ true) ↔ (a ≡ b)
int_beq_iff (pos a) (pos b) = ground arith
int_beq_iff (pos a) (negsuc b) = ground arith
int_beq_iff (negsuc a) (pos b) = ground arith
int_beq_iff (negsuc a) (negsuc b) = ground arith

instance abbrev pub int_comparable : Comparable ℤ
int_comparable = record { equals = int_beq; equals_iff = int_beq_iff }

abbrev pub max_int64 : ℕ
max_int64 = 2 ^ 63 - 1

-- The signed value of a 64-bit pattern.
abbrev pub signed64 : ℕ → ℤ
signed64 w = if ltb w (2 ^ 63) then pos w else negsuc (2 ^ 64 - w - 1)

-- The 64-bit pattern of a - b.
abbrev pub pattern64 : ℕ → ℕ → ℕ
pattern64 a b = (a + (2 ^ 64 - b % 2 ^ 64)) % 2 ^ 64

-- int64 addition, with its wrap-around.
unfoldable pub add64 : ℤ → ℤ → ℤ
add64 a b = signed64 (pattern64 (pos_part a + pos_part b) (neg_part a + neg_part b))

-- int64 multiplication, with its wrap-around.
unfoldable pub mul64 : ℤ → ℤ → ℤ
mul64 a b = signed64 (
    pattern64 (pos_part a * pos_part b + neg_part a * neg_part b)
      (pos_part a * neg_part b + neg_part a * pos_part b))

abbrev pub neg_nat : ℕ → ℤ
neg_nat zero = pos 0
neg_nat (suc n) = negsuc n

-- Go's `/` and `%` by a positive constant: they truncate towards zero.
unfoldable pub quot64 : ℤ → ℕ → ℤ
quot64 (pos n) k = pos (n / k)
quot64 (negsuc n) k = neg_nat (suc n / k)

unfoldable pub rem64 : ℤ → ℕ → ℤ
rem64 (pos n) k = pos (n % k)
rem64 (negsuc n) k = neg_nat (suc n % k)

pub add64_pos : (a b : ℕ) → a + b ≤ max_int64 → add64 (pos a) (pos b) ≡ pos (a + b)
unfolding add64
add64_pos a b h = ground arith

pub mul64_pos : (a b : ℕ) → a * b ≤ max_int64 → mul64 (pos a) (pos b) ≡ pos (a * b)
unfolding mul64
mul64_pos a b h = ground arith

-- The difference of two numbers, and the sum of two integers of any size.
abbrev pub minus : ℕ → ℕ → ℤ
minus a b = if leb b a then pos (a - b) else negsuc (b - a - 1)

abbrev pub add_ℤ : ℤ → ℤ → ℤ
add_ℤ a b = minus (pos_part a + pos_part b) (neg_part a + neg_part b)

abbrev pub fits_int64 : ℤ → Bool
fits_int64 z = leb (pos_part z) max_int64 && leb (neg_part z) (2 ^ 63)
