-- ===== src/Residency/Scheduler.antt =====
-- har/crates/har-residency/src/scheduler.rs: `WavefrontScheduler`, which takes pages from storage to a
-- finished computation through the methods of the residency manager.
pub mod Types
pub mod Order
pub mod Run
pub mod Works
pub mod Frame
pub mod Refine
pub mod Stages
pub mod Outcomes
pub mod Fates
pub mod Speculation
pub mod Failures
mod Tests
