-- ===== src/Examples.antt =====
-- Concrete data, and the theorems at it.
pub mod Library
pub mod Data
mod Runs
mod Calls
mod Reserves
mod Convergence
mod Experiments
mod Reports
mod Polls
mod Work
