-- ===== src/Workers.antt =====
-- internal/features/workers/worker: taking operations from the queue and carrying them out.
pub mod Compatibility
pub mod Process
pub mod PoolControl
pub mod Consumer
pub mod Poller
mod Examples
