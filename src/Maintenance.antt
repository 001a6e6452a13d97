-- ===== src/Maintenance.antt =====
-- internal/features/maintenance/worker: the monitors that run beside the queue.
pub mod Runtime
pub mod AutoDeploy
pub mod Timing
pub mod Idle
pub mod Curator
mod Examples
