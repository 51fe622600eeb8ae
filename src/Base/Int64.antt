-- ===== src/Base/Int64.antt =====
-- Go's `int`, `int64` and `time.Duration`: integers with the wrap-around of 64 bits written out, and
-- `time.Time` as the nanoseconds since the zero time.
use Prim.Native.Nat.{ℕ, suc, ◌+◌, ◌-◌, ◌*◌, ◌%◌, ◌^◌, ◌≤◌, ◌<◌}
use mathlib.Core.Path.{◌≡◌}
use mathlib.Core.Bool.{Bool}
use native.Mathlib.Omega.{arith}
use dealer.Base.Tests.{ltb, leb, if◌then◌else◌}

-- `negsuc n` is -(n + 1).
pub data ℤ : Type 0 where
  pos : ℕ → ℤ
  negsuc : ℕ → ℤ

abbrev pub pos_part : ℤ → ℕ
pos_part (pos n) = n
pos_part (negsuc n) = 0

abbrev pub neg_part : ℤ → ℕ
neg_part (pos n) = 0
neg_part (negsuc n) = suc n

-- a - b, as an integer.
abbrev pub sub_ℕ : ℕ → ℕ → ℤ
sub_ℕ a b = if leb b a then pos (a - b) else negsuc (b - a - 1)

abbrev pub ltb_ℤ : ℤ → ℤ → Bool
ltb_ℤ a b = ltb (pos_part a + neg_part b) (pos_part b + neg_part a)

abbrev pub leb_ℤ : ℤ → ℤ → Bool
leb_ℤ a b = leb (pos_part a + neg_part b) (pos_part b + neg_part a)

abbrev pub two63 : ℕ
two63 = 9223372036854775808

abbrev pub two64 : ℕ
two64 = 18446744073709551616

-- The signed value of a 64-bit pattern.
abbrev pub of_bits : ℕ → ℤ
of_bits m = if ltb m two63 then pos m else negsuc (two64 - m - 1)

-- The int64 that an integer wraps to.
abbrev pub to_int64 : ℤ → ℤ
to_int64 (pos n) = of_bits (n % two64)
to_int64 (negsuc n) = of_bits (two64 - 1 - n % two64)

-- Addition and subtraction of int64 values.
unfoldable pub add64 : ℤ → ℤ → ℤ
add64 a b = to_int64 (sub_ℕ (pos_part a + pos_part b) (neg_part a + neg_part b))

unfoldable pub sub64 : ℤ → ℤ → ℤ
sub64 a b = to_int64 (sub_ℕ (pos_part a + neg_part b) (neg_part a + pos_part b))

-- `a << k` on int64: multiplication by 2 ^ k, wrapped.
unfoldable pub shl64 : ℤ → ℕ → ℤ
shl64 a k = to_int64 (sub_ℕ (pos_part a * 2 ^ k) (neg_part a * 2 ^ k))

-- `a.Sub(b)` of two times: the difference, held to the range of a Duration.
unfoldable pub sub_time : ℕ → ℕ → ℤ
sub_time a b =
    if leb b a
    then pos (if ltb (a - b) two63 then a - b else two63 - 1)
    else negsuc (if ltb (b - a - 1) two63 then b - a - 1 else two63 - 1)

-- A time within the range of a Duration.
abbrev pub InRange : ℕ → Type 0
InRange n = n < two63

pub sub_time-later : (a b : ℕ) → b ≤ a → InRange (a - b) → sub_time a b ≡ pos (a - b)
unfolding sub_time
sub_time-later a b h r = ground arith

pub add64-pos : (a b : ℕ) → InRange (a + b) → add64 (pos a) (pos b) ≡ pos (a + b)
unfolding add64
add64-pos a b h = ground arith

pub sub64-pos : (a b : ℕ) → b ≤ a → InRange a → sub64 (pos a) (pos b) ≡ pos (a - b)
unfolding sub64
sub64-pos a b h r = ground arith

pub shl64-pos : (a k : ℕ) → InRange (a * 2 ^ k) → shl64 (pos a) k ≡ pos (a * 2 ^ k)
unfolding shl64
shl64-pos a k h = ground arith

pub shl64-overflow :
    (a k : ℕ)
    → two63 ≤ a * 2 ^ k
    → a * 2 ^ k < two64
    → shl64 (pos a) k ≡ negsuc (two64 - a * 2 ^ k - 1)
unfolding shl64
shl64-overflow a k lo hi = ground arith

pub sub_time-nonneg : (a b : ℕ) → b ≤ a → neg_part (sub_time a b) ≡ 0
unfolding sub_time
sub_time-nonneg a b h = ground arith
