-- ===== src/R4kv/Bytes.antt =====
-- Buffers of bytes as har/crates/r4kv/src/page.rs reads and writes them: little-endian words at an offset.
-- An access past the end of a buffer, which panics, does not occur there.
use remora_lab.Base.{
  zero, suc, ℕ, ◌+◌, ◌*◌, ◌/◌, ◌%◌, ◌≡◌, ◌<◌, refl, ap, List, [], ◌∷◌, ◌++◌, length, arith,
}
use native.Mathlib.Omega.{arith}

-- `to_le_bytes` and `from_le_bytes`.
abbrev pub le_bytes : (width : ℕ) → ℕ → List ℕ
le_bytes zero v = []
le_bytes (suc n) v = v % 256 ∷ le_bytes n (v / 256)

abbrev pub of_le_bytes : List ℕ → ℕ
of_le_bytes [] = 0
of_le_bytes (b ∷ bs) = b + 256 * of_le_bytes bs

-- 256 to the power of the width.
abbrev pub word_size : (width : ℕ) → ℕ
word_size zero = 1
word_size (suc n) = 256 * word_size n

pub of_le_bytes-le_bytes : (width v : ℕ) → v < word_size width → of_le_bytes (le_bytes width v) ≡ v
of_le_bytes-le_bytes zero v h = omega arith
of_le_bytes-le_bytes (suc n) v h = omega (arith, of_le_bytes-le_bytes n (v / 256) (omega arith))

pub length-le_bytes : (width v : ℕ) → length (le_bytes width v) ≡ width
length-le_bytes zero v = refl
length-le_bytes (suc n) v = ap suc (length-le_bytes n (v / 256))

module _ {ℓ} {A : Type ℓ} where
  abbrev pub take : ℕ → List A → List A
  take zero xs = []
  take (suc n) [] = []
  take (suc n) (x ∷ xs) = x ∷ take n xs

  abbrev pub drop : ℕ → List A → List A
  drop zero xs = xs
  drop (suc n) [] = []
  drop (suc n) (x ∷ xs) = drop n xs

  pub take-append : (n : ℕ) (xs ys : List A) → length xs ≡ n → take n (xs ++ ys) ≡ xs
  take-append zero [] ys h = refl
  take-append zero (x ∷ xs) ys h = absurd (omega arith)
  take-append (suc n) [] ys h = absurd (omega arith)
  take-append (suc n) (x ∷ xs) ys h = ap (◌∷◌ x) (take-append n xs ys (omega arith))

  pub drop-append : (n : ℕ) (xs ys : List A) → length xs ≡ n → drop n (xs ++ ys) ≡ ys
  drop-append zero [] ys h = refl
  drop-append zero (x ∷ xs) ys h = absurd (omega arith)
  drop-append (suc n) [] ys h = absurd (omega arith)
  drop-append (suc n) (x ∷ xs) ys h = drop-append n xs ys (omega arith)

  -- `copy_from_slice` at an offset.
  abbrev pub write : (offset : ℕ) → List A → List A → List A
  write offset bytes [] = []
  write zero [] (x ∷ xs) = x ∷ xs
  write zero (b ∷ bs) (x ∷ xs) = b ∷ write zero bs xs
  write (suc n) bytes (x ∷ xs) = x ∷ write n bytes xs

abbrev pub zeros : ℕ → List ℕ
zeros zero = []
zeros (suc n) = 0 ∷ zeros n

-- `get_u16`, `get_u32` and `get_u64` by their widths in bytes.
abbrev pub get : (width offset : ℕ) → List ℕ → ℕ
get width offset buf = of_le_bytes (take width (drop offset buf))

-- `put_u16`, `put_u32` and `put_u64` by their widths in bytes.
abbrev pub put : (width offset value : ℕ) → List ℕ → List ℕ
put width offset value buf = write offset (le_bytes width value) buf
