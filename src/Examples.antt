-- ===== src/Examples.antt =====
-- Concrete runs that meet the hypotheses of the theorems, over a concrete SDK.
pub mod World
pub mod Matching
pub mod Methods
pub mod Creation
pub mod Batch
mod Keys
mod Refunds
pub mod Tables
mod Queries
mod Runs
pub mod Pools
mod Start
mod Due
mod Refused
