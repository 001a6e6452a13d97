-- ===== src/Maintenance/Idle/Safety.antt =====
-- When an idle service is paused and resumed, and what is reported of it.
use releasea_worker.Prelude.{ℕ, String, true, false, none, List, ◌≡◌, ◌⊎◌, In}
use releasea_worker.Prelude.Int.{ℤ, pos, ◌≤ℤ◌, ◌<ℤ◌}
use releasea_worker.Models.Failure.{ok}
use releasea_worker.Models.Payload.{Value}
use releasea_worker.Models.Service.{ServicePayload}
use releasea_worker.Models.Runtime.{DeploymentInfo}
use releasea_worker.Maintenance.Idle.{
  IdleSettings, IdleCall, delete_autoscaler, apply_autoscaler, scale, Cluster, IdleOutcome,
  resume_replicas, idle_autoscaler_enabled, idle_autoscaler_resource, resolve_pause_idle_window,
  resolve_pause_resume_window, idle_observation_complete, has_request_activity,
}

module _ (settings : IdleSettings) (cluster : Cluster) (namespace name : String)
    (service : ServicePayload) where
  abbrev idle_window : ℕ
  idle_window = resolve_pause_idle_window settings service

  -- The service runs, has not been changed within its window, and has had no traffic in it.
  abbrev pub IsUnused : Type 0
  IsUnused =
      (deploy : DeploymentInfo) × (cluster.deployment ≡ ok deploy)
      × (pos 0 <ℤ deploy.replicas)
      × (idle_observation_complete settings deploy cluster.now idle_window ≡ true)
      × (has_request_activity cluster (pos idle_window) ≡ ok false)

  -- The service is paused, and there is traffic again.
  abbrev pub IsWanted : Type 0
  IsWanted =
      (deploy : DeploymentInfo) × (cluster.deployment ≡ ok deploy)
      × (deploy.replicas ≤ℤ pos 0)
      × (has_request_activity cluster (resolve_pause_resume_window settings idle_window) ≡ ok true)

  -- The service has no replica.
  abbrev pub IsDown : Type 0
  IsDown = (deploy : DeploymentInfo) × (cluster.deployment ≡ ok deploy) × (deploy.replicas ≤ℤ pos 0)

  -- The calls and the status of an evaluation are justified by the state of the cluster.
  pub record IsJustified (o : IdleOutcome) : Type 0 where
    pub scales :
        (r : ℤ)
        → In (scale r) o.calls
        → ((r ≡ pos 0)
            × IsUnused
            × (idle_autoscaler_enabled service ≡ true → cluster.deleted ≡ none))
          ⊎ ((r ≡ resume_replicas service) × (pos 1 ≤ℤ r) × IsWanted)
    pub deletes : In delete_autoscaler o.calls → IsUnused
    pub applies :
        (v : Value)
        → In (apply_autoscaler v) o.calls
        → (v ≡ idle_autoscaler_resource namespace name service) × IsWanted
    pub idle :
        o.status ≡ "idle" → IsDown ⊎ (In (scale (pos 0)) o.calls × (cluster.scaled (pos 0) ≡ none))

  -- The calls of a resumption, and of a pause.
  record Resumes (calls : List IdleCall) : Type 0 where
    scales : (r : ℤ) → In (scale r) calls → r ≡ resume_replicas service
    deletes : ¬ In delete_autoscaler calls
    applies :
        (v : Value)
        → In (apply_autoscaler v) calls
        → v ≡ idle_autoscaler_resource namespace name service
