-- ===== src/Memory.antt =====
-- har/crates/har-memory: explicit ownership of memory and residency.
pub mod Errors
pub mod State
pub mod Machine
pub mod Registry
pub mod Budget
pub mod Pool
mod Tests
