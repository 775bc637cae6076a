-- ===== src/R4kv/Crc32c.antt =====
-- har/crates/r4kv/src/crc32c.rs: CRC32C, reflected, by a table of 256 entries.
mod Bits
pub mod Detection
use remora_lab.Base.{zero, suc, ℕ, ◌/◌, ◌%◌, ◌==◌, nat_eq, List, [], ◌∷◌, if◌then◌else◌, bitxor}

-- The loop over the bits of one entry.
unfoldable pub entry_from : (rounds : ℕ) → ℕ → ℕ
entry_from zero c = c
entry_from (suc n) c = entry_from n (if c % 2 == 0 then c / 2 else bitxor 32 2197175160 (c / 2))

-- An entry of the table, by its number.
unfoldable pub table : ℕ → ℕ
unfolding entry_from
table i = entry_from 8 i

unfoldable pub crc_step : ℕ → (byte : ℕ) → ℕ
unfolding table
crc_step c byte = bitxor 32 (table (bitxor 32 c byte % 256)) (c / 256)

unfoldable pub crc_from : ℕ → List ℕ → ℕ
unfolding crc_step
crc_from c [] = c
crc_from c (byte ∷ rest) = crc_from (crc_step c byte) rest

unfoldable pub crc32c : List ℕ → ℕ
unfolding crc_from
crc32c bytes = bitxor 32 (crc_from 4294967295 bytes) 4294967295
