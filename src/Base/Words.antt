-- ===== src/Base/Words.antt =====
-- Machine integers as native numbers. `+` on a `u64` wraps, as in a release build; the saturating
-- operations stop at the largest value, and saturating subtraction is `-` on ℕ.
use Prim.Native.Nat.{ℕ, zero, suc, ◌+◌, ◌-◌, ◌*◌, ◌/◌, ◌%◌, ◌≤◌, min}
use mathlib.Core.Path.{◌≡◌}
use native.Mathlib.Omega.{arith}

abbrev pub u64_max : ℕ
u64_max = 18446744073709551615

abbrev pub u64_size : ℕ
u64_size = 18446744073709551616

abbrev pub u32_max : ℕ
u32_max = 4294967295

abbrev pub u32_size : ℕ
u32_size = 4294967296

abbrev pub sat_add : ℕ → ℕ → ℕ
sat_add a b = min (a + b) u64_max

abbrev pub sat_mul : ℕ → ℕ → ℕ
sat_mul a b = min (a * b) u64_max

abbrev pub sat_add32 : ℕ → ℕ → ℕ
sat_add32 a b = min (a + b) u32_max

abbrev pub wrap_add : ℕ → ℕ → ℕ
wrap_add a b = (a + b) % u64_size

abbrev pub wrap_sub : ℕ → ℕ → ℕ
wrap_sub a b = (a + u64_size - b) % u64_size

abbrev pub wrap_mul : ℕ → ℕ → ℕ
wrap_mul a b = (a * b) % u64_size

-- Below the modulus a wrapping sum is the sum.
pub wrap_add_lem : (a b : ℕ) → a + b ≤ u64_max → wrap_add a b ≡ a + b
wrap_add_lem a b h = omega arith

-- A difference that does not go below zero is the difference.
pub wrap_sub_lem : (a b : ℕ) → b ≤ a → a ≤ u64_max → wrap_sub a b ≡ a - b
wrap_sub_lem a b h k = omega arith

-- `^` on the lowest `width` bits.
abbrev pub bitxor : (width : ℕ) → ℕ → ℕ → ℕ
bitxor zero a b = 0
bitxor (suc width) a b = (a % 2 + b % 2) % 2 + 2 * bitxor width (a / 2) (b / 2)
