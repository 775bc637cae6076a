-- ===== src/R4kv.antt =====
-- har/crates/r4kv: the tiered KV store.
pub mod Dma
pub mod Crc32c
pub mod Bytes
pub mod Page
mod Tests
