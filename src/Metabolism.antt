-- ===== src/Metabolism.antt =====
-- har/crates/har-metabolism: the deterministic budget controller. Time enters only as explicit
-- ticks, and every unknown input is refused.
pub mod Errors
pub mod Reserve
pub mod Ledger
pub mod Artifact
pub mod Reclaim
pub mod Portion
pub mod Surplus
pub mod Setpoint
pub mod Clock
pub mod Salvage
pub mod Energy
pub mod Baseline
pub mod Controller
mod Tests
