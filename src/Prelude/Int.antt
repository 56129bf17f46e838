-- ===== src/Prelude/Int.antt =====
-- Signed integers over the native numbers, for values read in two's complement.
use Prim.Native.Nat.{ℕ, suc, ◌+◌, ◌-◌, ◌*◌, ◌/◌, ◌%◌, ◌^◌, ◌<◌}
use mathlib.Core.Path.{◌≡◌, ap}
use native.Mathlib.Omega.{arith}
use mathlib.Core.Bool.{Bool, false}
use rpi_omt_client.Prelude.Tests.{ltb, within, if◌then◌else◌}

-- `negsuc n` is -(n + 1).
pub data ℤ : Type 0 where
  pos : ℕ → ℤ
  negsuc : ℕ → ℤ

-- An `i32` and an `i64` from their bit patterns.
abbrev pub signed32 : ℕ → ℤ
signed32 w = if ltb w (2 ^ 31) then pos w else negsuc (2 ^ 32 - w - 1)

abbrev pub signed64 : ℕ → ℤ
signed64 w = if ltb w (2 ^ 63) then pos w else negsuc (2 ^ 64 - w - 1)

-- The bit pattern of an `i64`.
abbrev pub pattern64 : ℤ → ℕ
pattern64 (pos n) = n
pattern64 (negsuc n) = 2 ^ 64 - suc n

-- `(lo..=hi).contains(&z)` for bounds that are not negative.
abbrev pub int_within : ℕ → ℕ → ℤ → Bool
int_within lo hi (pos n) = within lo hi n
int_within lo hi (negsuc n) = false

-- `0 < z`
abbrev pub int_positive : ℤ → Bool
int_positive (pos n) = ltb 0 n
int_positive (negsuc n) = false

-- `i32::unsigned_abs`
abbrev pub unsigned_abs : ℤ → ℕ
unsigned_abs (pos n) = n
unsigned_abs (negsuc n) = suc n

-- The values of an `i64`.
abbrev pub IsI64 : ℤ → Type 0
IsI64 (pos n) = n < 2 ^ 63
IsI64 (negsuc n) = n < 2 ^ 63

pub pattern64-lt : (z : ℤ) → IsI64 z → pattern64 z < 2 ^ 64
pattern64-lt (pos n) h = omega arith
pattern64-lt (negsuc n) h = omega arith

pub signed64-pattern64 : (z : ℤ) → IsI64 z → signed64 (pattern64 z) ≡ z
signed64-pattern64 (pos n) h = ground arith
signed64-pattern64 (negsuc n) h = ground arith

-- Both parts of an integer: `z` is `pos_part z - neg_part z`, and one of them is 0.
abbrev pub pos_part : ℤ → ℕ
pos_part (pos n) = n
pos_part (negsuc n) = 0

abbrev pub neg_part : ℤ → ℕ
neg_part (pos n) = 0
neg_part (negsuc n) = n + 1

-- `up - down` as an integer.
abbrev pub balance : ℕ → ℕ → ℤ
balance up down = if ltb up down then negsuc (down - up - 1) else pos (up - down)

infixl 65 ◌+ℤ◌ ◌-ℤ◌
infixl 70 ◌*ℕ◌
unfoldable pub ◌+ℤ◌ : ℤ → ℤ → ℤ
x +ℤ y = balance (pos_part x + pos_part y) (neg_part x + neg_part y)

unfoldable pub ◌-ℤ◌ : ℤ → ℤ → ℤ
x -ℤ y = balance (pos_part x + neg_part y) (neg_part x + pos_part y)

-- An integer times a number.
unfoldable pub ◌*ℕ◌ : ℤ → ℕ → ℤ
z *ℕ k = balance (pos_part z * k) (neg_part z * k)

-- `div_euclid` and `rem_euclid` by a positive number.
unfoldable pub div_euclid : ℤ → ℕ → ℤ
div_euclid (pos n) k = pos (n / k)
div_euclid (negsuc n) k = negsuc (n / k)

unfoldable pub rem_euclid : ℤ → ℕ → ℕ
rem_euclid (pos n) k = n % k
rem_euclid (negsuc n) k = k - 1 - n % k

pub plus_parts :
    (x y : ℤ)
    → pos_part (x +ℤ y) + (neg_part x + neg_part y) ≡ neg_part (x +ℤ y) + (pos_part x + pos_part y)
unfolding ◌+ℤ◌
plus_parts x y = ground arith

pub minus_parts :
    (x y : ℤ)
    → pos_part (x -ℤ y) + (neg_part x + pos_part y) ≡ neg_part (x -ℤ y) + (pos_part x + neg_part y)
unfolding ◌-ℤ◌
minus_parts x y = ground arith

pub times_parts :
    (z : ℤ) (k : ℕ) → pos_part (z *ℕ k) + neg_part z * k ≡ neg_part (z *ℕ k) + pos_part z * k
unfolding ◌*ℕ◌
times_parts z k = ground arith

-- Integers with one difference are equal.
pub equal_parts : (x y : ℤ) → pos_part x + neg_part y ≡ pos_part y + neg_part x → x ≡ y
equal_parts (pos m) (pos n) h = ap pos (omega (arith, h))
equal_parts (negsuc m) (negsuc n) h = ap negsuc (omega (arith, h))
equal_parts (pos m) (negsuc n) h = absurd (omega (arith, h))
equal_parts (negsuc m) (pos n) h = absurd (omega (arith, h))
