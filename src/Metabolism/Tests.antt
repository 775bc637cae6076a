-- ===== src/Metabolism/Tests.antt =====
-- Runs of the metabolism at concrete data.
mod Accounts
mod Book
mod Estimates
mod Times
