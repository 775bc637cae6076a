-- ===== src/Residency.antt =====
-- har/crates/har-residency: what is resident where.
pub mod Types
pub mod State
pub mod Attempt
pub mod Record
pub mod Ticket
pub mod Slots
pub mod Manager
pub mod Mtp
pub mod Remora
pub mod ExpertLru
pub mod Scheduler
mod Tests
