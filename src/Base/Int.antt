-- ===== src/Base/Int.antt =====
-- Signed integers over the native numbers, and the `i64` of the Rust code: a wrapping and a saturating
-- cast, and division that drops the fraction.
use Prim.Native.Nat.{ℕ, suc, ◌+◌, ◌-◌, ◌*◌, ◌/◌, ◌%◌, ◌≤◌, min}
use mathlib.Core.Path.{◌≡◌}
use mathlib.Core.Bool.{Bool}
use native.Mathlib.Omega.{arith}
use remora_lab.Base.Tests.{ltb, leb, if◌then◌else◌}
use remora_lab.Base.Words.{u64_size}

-- `negsuc n` is -(n + 1).
pub data ℤ : Type 0 where
  pos : ℕ → ℤ
  negsuc : ℕ → ℤ

abbrev pub pos_part : ℤ → ℕ
pos_part (pos n) = n
pos_part (negsuc n) = 0

abbrev pub neg_part : ℤ → ℕ
neg_part (pos n) = 0
neg_part (negsuc n) = suc n

abbrev pub sub_ℕ : ℕ → ℕ → ℤ
sub_ℕ a b = if leb b a then pos (a - b) else negsuc (b - a - 1)

infixl 65 ◌+ℤ◌ ◌-ℤ◌
infixl 70 ◌*ℤ◌
infix 50 ◌≤ℤ◌
unfoldable pub ◌+ℤ◌ : ℤ → ℤ → ℤ
a +ℤ b = sub_ℕ (pos_part a + pos_part b) (neg_part a + neg_part b)

unfoldable pub ◌-ℤ◌ : ℤ → ℤ → ℤ
a -ℤ b = sub_ℕ (pos_part a + neg_part b) (neg_part a + pos_part b)

unfoldable pub ◌*ℤ◌ : ℤ → ℤ → ℤ
a *ℤ b =
    sub_ℕ (pos_part a * pos_part b + neg_part a * neg_part b)
      (pos_part a * neg_part b + neg_part a * pos_part b)

abbrev pub ◌≤ℤ◌ : ℤ → ℤ → Type 0
a ≤ℤ b = pos_part a + neg_part b ≤ pos_part b + neg_part a

abbrev pub ltb_ℤ : ℤ → ℤ → Bool
ltb_ℤ a b = ltb (pos_part a + neg_part b) (pos_part b + neg_part a)

abbrev pub i64_half : ℕ
i64_half = 9223372036854775808

-- The `i64` with the bit pattern of a `u64`.
abbrev pub of_bits : ℕ → ℤ
of_bits m = if ltb m i64_half then pos m else negsuc (u64_size - 1 - m)

-- The result of wrapping `i64` arithmetic whose exact value is the argument.
unfoldable pub wrap_i64 : ℤ → ℤ
wrap_i64 (pos n) = of_bits (n % u64_size)
wrap_i64 (negsuc n) = of_bits (u64_size - 1 - n % u64_size)

-- The result of saturating `i64` arithmetic whose exact value is the argument.
unfoldable pub sat_i64 : ℤ → ℤ
sat_i64 (pos n) = pos (min n (i64_half - 1))
sat_i64 (negsuc n) = negsuc (min n (i64_half - 1))

-- Division by a positive number, towards zero.
unfoldable pub div_trunc : ℤ → ℕ → ℤ
div_trunc (pos n) d = pos (n / d)
div_trunc (negsuc n) d = sub_ℕ 0 (suc n / d)

-- A value that fits is neither wrapped nor cut off.
pub wrap_i64-fits : (n : ℕ) → suc n ≤ i64_half → wrap_i64 (pos n) ≡ pos n
unfolding wrap_i64
wrap_i64-fits n h = ground arith
