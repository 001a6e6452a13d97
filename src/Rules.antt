-- ===== src/Rules.antt =====
-- internal/features/rules/worker: the rules that lead traffic to a service.
pub mod Names
pub mod Shop
mod Examples
pub mod Policy
pub mod Routes
pub mod Access
pub mod Edge
pub mod Filters
pub mod Cluster
pub mod Apply
pub mod Guard
pub mod Handle
