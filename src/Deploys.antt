-- ===== src/Deploys.antt =====
-- internal/features/deploys/worker.
pub mod Strategy
pub mod Readiness
pub mod Hints
pub mod BlueGreen
pub mod Canary
mod Examples
