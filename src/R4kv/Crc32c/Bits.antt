-- ===== src/R4kv/Crc32c/Bits.antt =====
-- Exclusive or on words of a given width: its size, what is known from it, and its bytes.
use remora_lab.Base.{zero, suc, ℕ, ◌+◌, ◌*◌, ◌/◌, ◌%◌, ◌≡◌, ◌<◌, refl, ap, ◌∙◌, bitxor, arith}

abbrev pub pow2 : ℕ → ℕ
pow2 zero = 1
pow2 (suc n) = 2 * pow2 n

pub bitxor-bound : (width a b : ℕ) → bitxor width a b < pow2 width
bitxor-bound zero a b = omega arith
bitxor-bound (suc n) a b = omega (arith, bitxor-bound n (a / 2) (b / 2))

-- A number below a power of two is known by what an exclusive or with it gives.
pub bitxor-inj_left :
    (width a b c : ℕ)
    → a < pow2 width
    → b < pow2 width
    → bitxor width a c ≡ bitxor width b c
    → a ≡ b
bitxor-inj_left zero a b c h k e = omega arith
bitxor-inj_left (suc n) a b c h k e =
    omega
      (arith, bitxor-inj_left n (a / 2) (b / 2) (c / 2) (omega arith) (omega arith) (omega arith))

pub bitxor_comm : (width a b : ℕ) → bitxor width a b ≡ bitxor width b a
bitxor_comm zero a b = refl
bitxor_comm (suc n) a b = omega (arith, bitxor_comm n (a / 2) (b / 2))

pub bitxor-inj_right :
    (width a b c : ℕ)
    → a < pow2 width
    → b < pow2 width
    → bitxor width c a ≡ bitxor width c b
    → a ≡ b
bitxor-inj_right width a b c h k e =
    bitxor-inj_left width a b c h k (bitxor_comm width a c ∙ e ∙ bitxor_comm width c b)

-- The number without its lowest bits, and those bits.
abbrev pub halve : ℕ → ℕ → ℕ
halve zero a = a
halve (suc k) a = halve k (a / 2)

abbrev pub low : ℕ → ℕ → ℕ
low zero a = 0
low (suc n) a = a % 2 + 2 * low n (a / 2)

abbrev pub more : ℕ → ℕ → ℕ
more zero w = w
more (suc k) w = suc (more k w)

pub halve-bitxor :
    (k w a b : ℕ) → halve k (bitxor (more k w) a b) ≡ bitxor w (halve k a) (halve k b)
halve-bitxor zero w a b = refl
halve-bitxor (suc k) w a b = ap (halve k) (shifted (more k w)) ∙ halve-bitxor k w (a / 2) (b / 2)
  where
    shifted : (n : ℕ) → bitxor (suc n) a b / 2 ≡ bitxor n (a / 2) (b / 2)
    shifted n = omega arith

pub low-bitxor : (n a b c : ℕ) → bitxor n a c ≡ bitxor n b c → low n a ≡ low n b
low-bitxor zero a b c e = refl
low-bitxor (suc n) a b c e = omega (arith, low-bitxor n (a / 2) (b / 2) (c / 2) (omega arith))

-- The lowest byte, and the highest one of four.
pub low_byte : (w a b : ℕ) → bitxor (more 8 w) a b % 256 ≡ bitxor 8 a b
low_byte w a b = omega arith

pub low-eight : (a : ℕ) → low 8 a ≡ a % 256
low-eight a = omega arith

pub halve-small : (k a : ℕ) → a < pow2 k → halve k a ≡ 0
halve-small zero a h = omega arith
halve-small (suc k) a h = halve-small k (a / 2) (omega arith)

pub bitxor-zero : (n a : ℕ) → a < pow2 n → bitxor n a 0 ≡ a
bitxor-zero zero a h = omega arith
bitxor-zero (suc n) a h = omega (arith, bitxor-zero n (a / 2) (omega arith))
