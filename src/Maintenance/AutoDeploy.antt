-- ===== src/Maintenance/AutoDeploy.antt =====
-- maintenance_autodeploy_control.go: the monitor that queues a deploy for each new commit.
pub mod State
pub mod Cycle
pub mod Keys
pub mod Spacing
