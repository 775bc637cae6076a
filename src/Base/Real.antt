-- ===== src/Base/Real.antt =====
-- The floating-point operations that the code uses, as an interface: `u64 as f64`, division, `<=`
-- and decimal literals. The type and its operations are parameters of what uses them.
use remora_lab.Base.Tests.{leb, ltb}
use native.Mathlib.Nat.{mul-le-mul_right, le_of_mul-le-mul_left}
use native.Mathlib.Omega.{arith}
use Prim.Native.Nat.{ℕ, ◌*◌, ◌≤◌, ◌<◌}
use mathlib.Core.Path.{◌≡◌}
use mathlib.Core.Bool.{Bool, true, ◌&&◌}
use remora_lab.Base.{◌&&◌}

pub record F64 : Type 1 where
  pub Carrier : Type 0
  pub of_u64 : ℕ → Carrier
  pub divide : Carrier → Carrier → Carrier
  pub le : Carrier → Carrier → Bool
  -- `lit n d` is the literal of the decimal n / d
  pub lit : ℕ → ℕ → Carrier

-- IEEE 754: `<=` is transitive, and rounding is monotone, so a quotient of converted integers by one
-- positive integer grows with its numerator.
pub record IsMonotone (f : F64) : Type 0 where
  pub le_trans : (x y z : f.Carrier) → f.le x y ≡ true → f.le y z ≡ true → f.le x z ≡ true
  pub divide_mono :
      (a b c : ℕ)
      → a ≤ b
      → 0 < c
      → f.le (f.divide (f.of_u64 a) (f.of_u64 c)) (f.divide (f.of_u64 b) (f.of_u64 c)) ≡ true

-- Exact fractions: a pair is its numerator over its denominator, and one over 0 compares with none.
abbrev pub fractions : F64
fractions = record {
  Carrier = ℕ × ℕ;
  of_u64 = λ n. (n, 1);
  divide = λ x y. (x.0 * y.1, x.1 * y.0);
  le = λ x y. ltb 0 x.1 && (ltb 0 y.1 && leb (x.0 * y.1) (y.0 * x.1));
  lit = λ n d. (n, d);
}

cross_trans : (a b c d e g : ℕ) → a * d ≤ c * b → c * g ≤ e * d → 0 < d → a * g ≤ e * b
cross_trans a b c d e g h k pos =
    let l : a * d * g ≤ c * b * g = mul-le-mul_right g h in
    let r : c * g * b ≤ e * d * b = mul-le-mul_right b k in
    le_of_mul-le-mul_left {k = d} (omega arith) pos

cross_mono : (a b c : ℕ) → a ≤ b → a * 1 * (1 * c) ≤ b * 1 * (1 * c)
cross_mono a b c h = let l : a * c ≤ b * c = mul-le-mul_right c h in omega arith

pub fractions-IsMonotone : IsMonotone fractions
fractions-IsMonotone = record {
  le_trans = λ x y z h k. ground (arith, cross_trans x.0 x.1 y.0 y.1 z.0 z.1);
  divide_mono = λ a b c h pos. ground (arith, cross_mono a b c h);
}
