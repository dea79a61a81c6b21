-- ===== src/Tests.antt =====
-- Concrete runs: a scanner that answers from a list of replies, and the theorems at concrete inputs.
pub mod World
mod Wire
mod Hosts
mod Jobs
mod Images
mod Catalogs
