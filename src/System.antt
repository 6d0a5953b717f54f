-- ===== src/System.antt =====
-- The whole system as its database sees it: the changes that units of work commit, as effects on the
-- database, and the runs made of them. Both services are shown to commit nothing else.
pub mod Effects
pub mod Steps
pub mod Books
pub mod Intake
pub mod Work
pub mod Replay
pub mod Finality
pub mod Postings
pub mod Verdicts
pub mod Refusals
pub mod Reserves
pub mod Convergence
pub mod Progress
pub mod Solvency
pub mod Start
