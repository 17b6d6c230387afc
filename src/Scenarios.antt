-- ===== src/Scenarios.antt =====
-- Concrete clusters, and the theorems at them.
pub mod Cluster
pub mod Planning
pub mod Running
pub mod Members
pub mod Passes
pub mod Rolling
pub mod Claims
pub mod Growing
pub mod Observing
pub mod Flags
pub mod Trust
pub mod Leading
pub mod Exempting
pub mod Settling
pub mod Reaching
pub mod Login
pub mod Whole
pub mod Shedding
