-- ===== src/R4kv/Crc32c/Detection.antt =====
-- har/crates/r4kv/src/crc32c.rs: the size of the checksum, and the changes that it shows.
use remora_lab.Base.{
  false, zero, suc, ℕ, ◌/◌, ◌≡◌, ◌<◌, refl, ◌∙◌, nat_eq, if◌then◌else◌, List, bitxor, arith, ap,
  ◌%◌, true, Bool, ◌∷◌, nth_or, [], ◌&&◌, ◌==◌, sym, ◌++◌, ◌≢◌,
}
use remora_lab.R4kv.Crc32c.{crc_from, crc32c, table, crc_step, entry_from}
use remora_lab.R4kv.Crc32c.Bits.{
  bitxor-bound, bitxor-inj_left, bitxor-inj_right, halve, halve-bitxor, low-bitxor, low_byte,
  halve-small, bitxor-zero,
}

pub crc32c-bound : (bytes : List ℕ) → crc32c bytes < 4294967296
unfolding crc32c
crc32c-bound bytes = bitxor-bound 32 (crc_from 4294967295 bytes) 4294967295

abbrev all_below : ℕ → (ℕ → Bool) → Bool
all_below zero p = true
all_below (suc n) p = p n && all_below n p

all_below-lt : (n : ℕ) (p : ℕ → Bool) (x : ℕ) → all_below n p ≡ true → x < n → p x ≡ true
all_below-lt zero p x h k = absurd (omega arith)
all_below-lt (suc n) p x h k = ground (arith, all_below-lt n p x)

-- The number of the entry with a given highest byte.
abbrev entry_of : List ℕ
entry_of =
    0 ∷ 241 ∷ 226 ∷ 19 ∷ 196 ∷ 53 ∷ 38 ∷ 215 ∷ 136 ∷ 121 ∷ 106 ∷ 155 ∷ 76 ∷ 189 ∷ 174 ∷ 95 ∷ 16
    ∷ 225 ∷ 242 ∷ 3 ∷ 212 ∷ 37 ∷ 54 ∷ 199 ∷ 152 ∷ 105 ∷ 122 ∷ 139 ∷ 92 ∷ 173 ∷ 190 ∷ 79 ∷ 32 ∷ 209
    ∷ 194 ∷ 51 ∷ 228 ∷ 21 ∷ 6 ∷ 247 ∷ 168 ∷ 89 ∷ 74 ∷ 187 ∷ 108 ∷ 157 ∷ 142 ∷ 127 ∷ 48 ∷ 193 ∷ 210
    ∷ 35 ∷ 244 ∷ 5 ∷ 22 ∷ 231 ∷ 184 ∷ 73 ∷ 90 ∷ 171 ∷ 124 ∷ 141 ∷ 158 ∷ 111 ∷ 177 ∷ 64 ∷ 83 ∷ 162
    ∷ 117 ∷ 132 ∷ 151 ∷ 102 ∷ 57 ∷ 200 ∷ 219 ∷ 42 ∷ 253 ∷ 12 ∷ 31 ∷ 238 ∷ 161 ∷ 80 ∷ 67 ∷ 178 ∷ 101
    ∷ 148 ∷ 135 ∷ 118 ∷ 41 ∷ 216 ∷ 203 ∷ 58 ∷ 237 ∷ 28 ∷ 15 ∷ 254 ∷ 145 ∷ 96 ∷ 115 ∷ 130 ∷ 85 ∷ 164
    ∷ 183 ∷ 70 ∷ 25 ∷ 232 ∷ 251 ∷ 10 ∷ 221 ∷ 44 ∷ 63 ∷ 206 ∷ 129 ∷ 112 ∷ 99 ∷ 146 ∷ 69 ∷ 180 ∷ 167
    ∷ 86 ∷ 9 ∷ 248 ∷ 235 ∷ 26 ∷ 205 ∷ 60 ∷ 47 ∷ 222 ∷ 98 ∷ 147 ∷ 128 ∷ 113 ∷ 166 ∷ 87 ∷ 68 ∷ 181
    ∷ 234 ∷ 27 ∷ 8 ∷ 249 ∷ 46 ∷ 223 ∷ 204 ∷ 61 ∷ 114 ∷ 131 ∷ 144 ∷ 97 ∷ 182 ∷ 71 ∷ 84 ∷ 165 ∷ 250
    ∷ 11 ∷ 24 ∷ 233 ∷ 62 ∷ 207 ∷ 220 ∷ 45 ∷ 66 ∷ 179 ∷ 160 ∷ 81 ∷ 134 ∷ 119 ∷ 100 ∷ 149 ∷ 202 ∷ 59
    ∷ 40 ∷ 217 ∷ 14 ∷ 255 ∷ 236 ∷ 29 ∷ 82 ∷ 163 ∷ 176 ∷ 65 ∷ 150 ∷ 103 ∷ 116 ∷ 133 ∷ 218 ∷ 43 ∷ 56
    ∷ 201 ∷ 30 ∷ 239 ∷ 252 ∷ 13 ∷ 211 ∷ 34 ∷ 49 ∷ 192 ∷ 23 ∷ 230 ∷ 245 ∷ 4 ∷ 91 ∷ 170 ∷ 185 ∷ 72
    ∷ 159 ∷ 110 ∷ 125 ∷ 140 ∷ 195 ∷ 50 ∷ 33 ∷ 208 ∷ 7 ∷ 246 ∷ 229 ∷ 20 ∷ 75 ∷ 186 ∷ 169 ∷ 88 ∷ 143
    ∷ 126 ∷ 109 ∷ 156 ∷ 243 ∷ 2 ∷ 17 ∷ 224 ∷ 55 ∷ 198 ∷ 213 ∷ 36 ∷ 123 ∷ 138 ∷ 153 ∷ 104 ∷ 191 ∷ 78
    ∷ 93 ∷ 172 ∷ 227 ∷ 18 ∷ 1 ∷ 240 ∷ 39 ∷ 214 ∷ 197 ∷ 52 ∷ 107 ∷ 154 ∷ 137 ∷ 120 ∷ 175 ∷ 94 ∷ 77
    ∷ 188 ∷ []

found_again : ℕ → Bool
unfolding table
found_again i = nth_or 0 entry_of (halve 24 (table i)) == i

table-found : all_below 256 found_again ≡ true
unfolding found_again
table-found = refl

table-inj : (i j : ℕ) → i < 256 → j < 256 → halve 24 (table i) ≡ halve 24 (table j) → i ≡ j
unfolding found_again
table-inj i j h k e =
    sym (
      (nat_eq.beq_iff (nth_or 0 entry_of (halve 24 (table i))) i).0
        (all_below-lt 256 found_again i table-found h))
    ∙ ap (nth_or 0 entry_of) e
    ∙ (nat_eq.beq_iff (nth_or 0 entry_of (halve 24 (table j))) j).0
        (all_below-lt 256 found_again j table-found k)

entry_from-bound : (n c : ℕ) → c < 4294967296 → entry_from n c < 4294967296
unfolding entry_from
entry_from-bound zero c h = h
entry_from-bound (suc n) c h =
    entry_from-bound n (if c % 2 == 0 then c / 2 else bitxor 32 2197175160 (c / 2))
      (shifted (c % 2 == 0))
  where
    shifted : (x : Bool) → (if x then c / 2 else bitxor 32 2197175160 (c / 2)) < 4294967296
    shifted true = omega arith
    shifted false = bitxor-bound 32 2197175160 (c / 2)

table-bound : (i : ℕ) → i < 256 → table i < 4294967296
unfolding table
table-bound i h = entry_from-bound 8 i (omega arith)

-- The place in the table where a step looks.
abbrev index : ℕ → ℕ → ℕ
index c byte = bitxor 32 c byte % 256

crc_step-top :
    (c byte : ℕ) → c < 4294967296 → halve 24 (crc_step c byte) ≡ halve 24 (table (index c byte))
unfolding crc_step
crc_step-top c byte h =
    halve-bitxor 24 8 (table (index c byte)) (c / 256)
    ∙ ap (bitxor 8 (halve 24 (table (index c byte)))) (halve-small 24 (c / 256) (omega arith))
    ∙ bitxor-zero 8 (halve 24 (table (index c byte)))
        (halve-bound (table (index c byte)) (table-bound (index c byte) (omega arith)))
  where
    halve-bound : (x : ℕ) → x < 4294967296 → halve 24 x < 256
    halve-bound x k = omega arith

module _ (c d a b : ℕ) (hc : c < 4294967296) (hd : d < 4294967296)
    (same : crc_step c a ≡ crc_step d b) where
  same_index : index c a ≡ index d b
  same_index =
      table-inj (index c a) (index d b) (omega arith) (omega arith)
        (sym (crc_step-top c a hc) ∙ ap (halve 24) same ∙ crc_step-top d b hd)

  same_rest : c / 256 ≡ d / 256
  unfolding crc_step
  same_rest =
      bitxor-inj_right 32 (c / 256) (d / 256) (table (index d b)) (omega arith) (omega arith)
        (ap (λ i. bitxor 32 (table i) (c / 256)) (sym same_index) ∙ same)

  same_low : bitxor 8 c a ≡ bitxor 8 d b
  same_low = sym (low_byte 24 c a) ∙ same_index ∙ low_byte 24 d b

crc_step-inj_state :
    (c d a : ℕ) → c < 4294967296 → d < 4294967296 → crc_step c a ≡ crc_step d a → c ≡ d
crc_step-inj_state c d a h k e =
    omega (arith, same_rest c d a a h k e, low-bitxor 8 c d a (same_low c d a a h k e))

crc_step-inj_byte :
    (c a b : ℕ) → c < 4294967296 → a < 256 → b < 256 → crc_step c a ≡ crc_step c b → a ≡ b
crc_step-inj_byte c a b h k l e = bitxor-inj_right 8 a b c k l (same_low c c a b h h e)

crc_step-bound : (c a : ℕ) → crc_step c a < 4294967296
unfolding crc_step
crc_step-bound c a = bitxor-bound 32 (table (index c a)) (c / 256)

crc_from-bound : (c : ℕ) (xs : List ℕ) → c < 4294967296 → crc_from c xs < 4294967296
unfolding crc_from
crc_from-bound c [] h = h
crc_from-bound c (x ∷ xs) h = crc_from-bound (crc_step c x) xs (crc_step-bound c x)

crc_from-inj :
    (c d : ℕ) (xs : List ℕ)
    → c < 4294967296
    → d < 4294967296
    → crc_from c xs ≡ crc_from d xs
    → c ≡ d
unfolding crc_from
crc_from-inj c d [] h k e = e
crc_from-inj c d (x ∷ xs) h k e =
    crc_step-inj_state c d x h k
      (crc_from-inj (crc_step c x) (crc_step d x) xs (crc_step-bound c x) (crc_step-bound d x) e)

crc_from-change :
    (c a b : ℕ) (xs ys : List ℕ)
    → c < 4294967296
    → a < 256
    → b < 256
    → crc_from c (xs ++ (a ∷ ys)) ≡ crc_from c (xs ++ (b ∷ ys))
    → a ≡ b
unfolding crc_from
crc_from-change c a b [] ys h k l e =
    crc_step-inj_byte c a b h k l
      (crc_from-inj (crc_step c a) (crc_step c b) ys (crc_step-bound c a) (crc_step-bound c b) e)
crc_from-change c a b (x ∷ xs) ys h k l e =
    crc_from-change (crc_step c x) a b xs ys (crc_step-bound c x) k l e

-- Two texts of bytes that differ in exactly one byte, at any place and after any bytes, have different
-- checksums.
pub crc32c-change :
    (xs ys : List ℕ) (a b : ℕ)
    → a < 256
    → b < 256
    → a ≢ b
    → crc32c (xs ++ (a ∷ ys)) ≢ crc32c (xs ++ (b ∷ ys))
unfolding crc32c
crc32c-change xs ys a b h k n e = n (
    crc_from-change 4294967295 a b xs ys (omega arith) h k (
      bitxor-inj_left 32 (crc_from 4294967295 (xs ++ (a ∷ ys)))
        (crc_from 4294967295 (xs ++ (b ∷ ys))) 4294967295
        (crc_from-bound 4294967295 (xs ++ (a ∷ ys)) (omega arith))
        (crc_from-bound 4294967295 (xs ++ (b ∷ ys)) (omega arith)) e))
