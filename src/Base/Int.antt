-- ===== src/Base/Int.antt =====
-- Signed integers over the native numbers: instants and durations in nanoseconds, and Go's `int`.
use Prim.Native.Nat.{◌%◌, ℕ, suc, ◌+◌, ◌-◌, ◌*◌, ◌≤◌, ◌^◌}
use mathlib.Core.Bool.{Bool}
use warpdb.Base.Tests.{ltb, leb, if◌then◌else◌}

-- `negsuc n` is -(n + 1).
pub data ℤ : Type 0 where
  pos : ℕ → ℤ
  negsuc : ℕ → ℤ

abbrev pub pos_part : ℤ → ℕ
pos_part (pos n) = n
pos_part (negsuc n) = 0

abbrev pub neg_part : ℤ → ℕ
neg_part (pos n) = 0
neg_part (negsuc n) = suc n

-- a - b, as an integer.
abbrev pub sub_ℕ : ℕ → ℕ → ℤ
sub_ℕ a b = if leb b a then pos (a - b) else negsuc (b - a - 1)

infixl 65 ◌+ℤ◌ ◌-ℤ◌
infix 50 ◌≤ℤ◌
unfoldable pub ◌+ℤ◌ : ℤ → ℤ → ℤ
a +ℤ b = sub_ℕ (pos_part a + pos_part b) (neg_part a + neg_part b)

unfoldable pub ◌-ℤ◌ : ℤ → ℤ → ℤ
a -ℤ b = sub_ℕ (pos_part a + neg_part b) (neg_part a + pos_part b)

abbrev pub ◌≤ℤ◌ : ℤ → ℤ → Type 0
a ≤ℤ b = pos_part a + neg_part b ≤ pos_part b + neg_part a

abbrev pub ltb_ℤ : ℤ → ℤ → Bool
ltb_ℤ a b = ltb (pos_part a + neg_part b) (pos_part b + neg_part a)

abbrev pub max_int : ℕ
max_int = 2 ^ 63 - 1

-- A Go `int` (64 bits wide): what is one past an end wraps round.
abbrev pub IsInt64 : ℤ → Type 0
IsInt64 (pos n) = n ≤ max_int
IsInt64 (negsuc n) = n ≤ max_int

-- The value of `z` as an int64, for `z` less than 2^64 away from the range.
unfoldable pub wrap64 : ℤ → ℤ
wrap64 (pos n) = if leb n max_int then pos n else sub_ℕ n (2 ^ 64)
wrap64 (negsuc n) = if leb n max_int then negsuc n else pos (2 ^ 64 - n - 1)

-- int64(u) of a uint64.
abbrev pub to_int64 : ℕ → ℤ
to_int64 u = if ltb u (2 ^ 63) then pos u else negsuc (2 ^ 64 - 1 - u)

-- time.Duration(n) * time.Second, for an `n` that is not negative: it wraps round.
abbrev pub seconds : ℕ → ℤ
seconds n = to_int64 (n * 1_000_000_000 % 2 ^ 64)
