-- ===== src/Tests.antt =====
-- Examples: runs at concrete inputs of what the theorems state in general.
pub mod Data
mod Charges
mod Growth
mod Shields
mod Gatherings
mod Deliveries
mod Votes
mod Statistics
mod Reporting
mod Reading
mod Counting
