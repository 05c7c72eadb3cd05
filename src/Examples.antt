-- ===== src/Examples.antt =====
-- The theorems at concrete rows, with tests.
pub mod Data
mod Jobs
mod Requests
mod Sessions
mod Limiter
pub mod Networks
mod Orchestrators
mod Placements
