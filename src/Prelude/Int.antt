-- ===== src/Prelude/Int.antt =====
-- Go's signed integers: ℤ over the native numbers, the wrap-around of a fixed width, and
-- division that truncates towards zero.
use Prim.Native.Nat.{ℕ, zero, suc, ◌+◌, ◌-◌, ◌*◌, ◌/◌, ◌%◌, ◌^◌, ◌≤◌, ◌<◌}
use mathlib.Core.Path.{◌≡◌}
use native.Mathlib.Omega.{arith}
use mathlib.Core.Bool.{◌&&◌, Bool, true, false}
use rate_cap.Prelude.Tests.{ltb, leb, eqb, if◌then◌else◌}

-- `negsuc n` is -(n + 1).
pub data ℤ : Type 0 where
  pos : ℕ → ℤ
  negsuc : ℕ → ℤ

abbrev pub pos_part : ℤ → ℕ
pos_part (pos n) = n
pos_part (negsuc n) = 0

abbrev pub neg_part : ℤ → ℕ
neg_part (pos n) = 0
neg_part (negsuc n) = suc n

-- - n
abbrev pub neg : ℕ → ℤ
neg zero = pos 0
neg (suc n) = negsuc n

-- a - b
abbrev pub sub_ℕ : ℕ → ℕ → ℤ
sub_ℕ a b = if leb b a then pos (a - b) else negsuc (b - a - 1)

infixl 65 ◌+ℤ◌ ◌-ℤ◌
infixl 70 ◌*ℤ◌
infix 50 ◌≤ℤ◌
abbrev pub ◌+ℤ◌ : ℤ → ℤ → ℤ
pos a +ℤ pos b = pos (a + b)
pos a +ℤ negsuc b = sub_ℕ a (suc b)
negsuc a +ℤ pos b = sub_ℕ b (suc a)
negsuc a +ℤ negsuc b = negsuc (a + b + 1)

abbrev pub ◌-ℤ◌ : ℤ → ℤ → ℤ
pos a -ℤ pos b = sub_ℕ a b
pos a -ℤ negsuc b = pos (a + suc b)
negsuc a -ℤ pos b = negsuc (a + b)
negsuc a -ℤ negsuc b = sub_ℕ b a

abbrev pub ◌*ℤ◌ : ℤ → ℤ → ℤ
pos a *ℤ pos b = pos (a * b)
pos a *ℤ negsuc b = neg (a * suc b)
negsuc a *ℤ pos b = neg (suc a * b)
negsuc a *ℤ negsuc b = pos (suc a * suc b)

abbrev pub ◌≤ℤ◌ : ℤ → ℤ → Type 0
a ≤ℤ b = pos_part a + neg_part b ≤ pos_part b + neg_part a

abbrev pub ltb_ℤ : ℤ → ℤ → Bool
ltb_ℤ (pos a) (pos b) = ltb a b
ltb_ℤ (pos a) (negsuc b) = false
ltb_ℤ (negsuc a) (pos b) = true
ltb_ℤ (negsuc a) (negsuc b) = ltb b a

abbrev pub leb_ℤ : ℤ → ℤ → Bool
leb_ℤ (pos a) (pos b) = leb a b
leb_ℤ (pos a) (negsuc b) = false
leb_ℤ (negsuc a) (pos b) = true
leb_ℤ (negsuc a) (negsuc b) = leb b a

abbrev pub eqb_ℤ : ℤ → ℤ → Bool
eqb_ℤ (pos a) (pos b) = eqb a b
eqb_ℤ (pos a) (negsuc b) = false
eqb_ℤ (negsuc a) (pos b) = false
eqb_ℤ (negsuc a) (negsuc b) = eqb a b

abbrev pub max_ℤ : ℤ → ℤ → ℤ
max_ℤ a b = if leb_ℤ a b then b else a

abbrev pub min_ℤ : ℤ → ℤ → ℤ
min_ℤ a b = if leb_ℤ a b then a else b

-- Division by a positive number, rounded towards zero as Go's `/` is.
abbrev pub quot : ℤ → ℕ → ℤ
quot (pos a) d = pos (a / d)
quot (negsuc a) d = neg (suc a / d)

-- ⌊a / d⌋ for a positive d.
abbrev pub floor_div : ℤ → ℕ → ℤ
floor_div (pos a) d = pos (a / d)
floor_div (negsuc a) d = negsuc (a / d)

-- ⌈a / b⌉ for b ≠ 0. At b = 0 the value has no meaning: the callers test for it.
abbrev pub ceil_div : ℤ → ℤ → ℤ
ceil_div (pos a) (pos b) = pos ((a + (b - 1)) / b)
ceil_div (pos a) (negsuc b) = neg (a / suc b)
ceil_div (negsuc a) (pos b) = neg (suc a / b)
ceil_div (negsuc a) (negsuc b) = pos ((suc a + b) / suc b)

abbrev pub two_63 : ℕ
two_63 = 2 ^ 63

abbrev pub two_64 : ℕ
two_64 = 2 ^ 64

-- The integer that a bit pattern below `2 * half` stands for.
abbrev pub from_bits : ℕ → ℕ → ℤ
from_bits half r = if ltb r half then pos r else negsuc (half + half - 1 - r)

-- The value of an integer expression of int64 type.
unfoldable pub wrap64 : ℤ → ℤ
wrap64 (pos a) = from_bits two_63 (a % two_64)
wrap64 (negsuc a) = from_bits two_63 (two_64 - 1 - a % two_64)

-- The conversion `int32(x)`.
unfoldable pub wrap32 : ℤ → ℤ
wrap32 (pos a) = from_bits (2 ^ 31) (a % 2 ^ 32)
wrap32 (negsuc a) = from_bits (2 ^ 31) (2 ^ 32 - 1 - a % 2 ^ 32)

-- Nothing wraps that fits.
pub wrap64_fits : (n : ℕ) → n < two_63 → wrap64 (pos n) ≡ pos n
unfolding wrap64
wrap64_fits n h = ground arith

pub wrap32_fits : (n : ℕ) → n < 2 ^ 31 → wrap32 (pos n) ≡ pos n
unfolding wrap32
wrap32_fits n h = ground arith

abbrev pub fits_int32 : ℤ → Bool
fits_int32 value = leb_ℤ (neg (2 ^ 31)) value && ltb_ℤ value (pos (2 ^ 31))

pub wrap32-fits : (x : ℤ) → fits_int32 x ≡ true → wrap32 x ≡ x
unfolding wrap32
wrap32-fits (pos n) h = ground (arith, h)
wrap32-fits (negsuc n) h = ground (arith, h)

pub sub_ℕ_le : (a b : ℕ) → b ≤ a → sub_ℕ a b ≡ pos (a - b)
sub_ℕ_le a b h = ground arith
