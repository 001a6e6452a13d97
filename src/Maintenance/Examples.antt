-- ===== src/Maintenance/Examples.antt =====
-- Concrete runs of the monitors, and the theorems applied to them.
use releasea_worker.Prelude.{
  ◌⊎◌, ℕ, ◌≤◌, In, inl, true, false, map, equal_fold, none, some, List, [], ◌∷◌, ◌≡◌, refl, ◌↔◌,
  All, any, ◌==◌, trim_space, to_lower, arith,
}
use releasea_worker.Prelude.Int.{◌≤ℤ◌, ◌<ℤ◌, pos, negsuc, at_least, at_most}
use releasea_worker.Models.Payload.{Value}
use releasea_worker.Models.Runtime.{DeploymentInfo}
use releasea_worker.Models.Failure.{ok, err, new_error, err_deployment_not_found}
use releasea_worker.Shared.Strategy.{normalize_source_type}
use releasea_worker.Models.Service.{ServicePayload}
use releasea_worker.Maintenance.Runtime.{
  RuntimeAssessment, status_severity, combine_runtime_assessments,
}
use releasea_worker.Maintenance.Runtime.Combine.{
  IsUnhealthy, combine_runtime_assessments-severity, combine_runtime_assessments-healthy,
}
use releasea_worker.Models.Operation.{OperationPayload, Config}
use releasea_worker.Maintenance.Curator.{Curation}
use releasea_worker.Maintenance.Idle.{
  IdleSettings, query_traffic, delete_autoscaler, apply_autoscaler, scale, Cluster, resume_replicas,
  idle_autoscaler_enabled, target_cpu, autoscaler_resource, idle_autoscaler_resource,
  suspend_idle_autoscaler, restore_idle_autoscaler, resolve_pause_idle_window, wrap_int64,
  resolve_pause_resume_window, workload_revision_time, idle_observation_complete,
  has_request_activity, format_idle_window, pause_idle_reason, pause_after_idle,
  handle_pause_when_idle,
}
use releasea_worker.Maintenance.Idle.Bounds.{pause_windows_bounds}
use releasea_worker.Maintenance.AutoDeploy.State.{
  update, remove, normalize_commit_sha, normalize_worker_environment, auto_deploy_state_key,
  evict_expired, mark_queued, was_recently_queued, mark_service_cooldown, clear_service_cooldown,
  in_service_cooldown, should_auto_deploy_service, auto_deploy_enabled, note_deploys,
  build_auto_deploy_states,
}
use releasea_worker.Maintenance.AutoDeploy.Cycle.{
  World, Settings, Tick, run_cycles, visit_all, visit, consider, settle, queue_outcome,
  run_auto_deploy_cycle,
}
use releasea_worker.Maintenance.AutoDeploy.Spacing.{AreSpaced, new_monitor, run_cycles_spaced}

abbrev assessments : List RuntimeAssessment
assessments =
    record { target = "shop"; status = "healthy"; reason = "" }
    ∷ record { target = "shop-canary"; status = "crashloop"; reason = "Exited" }
    ∷ record { target = "shop-green"; status = "pending"; reason = "deployment not found" }
    ∷ []

combine_runtime_assessments-severity_example :
    All
      (λ r.
        IsUnhealthy r
        → status_severity r.status ≤ status_severity (combine_runtime_assessments assessments).0)
      assessments
combine_runtime_assessments-severity_example = combine_runtime_assessments-severity assessments

combine_runtime_assessments-healthy_example :
    (((combine_runtime_assessments assessments).0 ≡ "healthy") ↔ (
      (any (λ r. r.status == "healthy") assessments ≡ true)
      × All (λ r. ¬ IsUnhealthy r) assessments))
    × (((combine_runtime_assessments assessments).0 ≡ "") ↔ All (λ r. r.status ≡ "") assessments)
combine_runtime_assessments-healthy_example = combine_runtime_assessments-healthy assessments

abbrev shop : ServicePayload
shop = record {
  id = "service-1";
  name = "shop";
  kind = "microservice";
  status = "running";
  source_type = "git";
  repo_url = "https://github.com/acme/shop";
  branch = "main";
  project_id = "project-1";
  scm_credential_id = "";
  auto_deploy = none;
  auto_deploy_environment = "prod";
  pause_on_idle = false;
  pause_idle_timeout_seconds = pos 0;
  is_active = true;
  replicas = pos 1;
  min_replicas = pos 1;
  max_replicas = pos 2;
  cpu = pos 100;
  port = pos 8080;
  deploy_template_id = "";
  deployment_strategy = record {
    kind = "rolling";
    canary_percent = pos 0;
    blue_green_primary = "";
  };
}

-- The branch always stands at one commit, and the API takes every deploy of it.
abbrev steady : World
steady = record {
  latest_commit = λ requests service. ok "abc123";
  answer = λ requests req.
      ok (record {
        deploy_commit = req.commit;
        queued = some true;
        blocked_by_active_deploy = false;
      });
}

abbrev settings : Settings
settings = record {
  environment = "production";
  error_cooldown = 90000000000;
  queue_error_cooldown = 30000000000;
  recent_queue_ttl = 120000000000;
}

abbrev tick_at : ℕ → Tick
tick_at t = record { now = t; lease = ok true; services = ok (shop ∷ []); deploys = ok [] }

abbrev ticks : List Tick
ticks = tick_at 60000000000 ∷ tick_at 120000000000 ∷ tick_at 180000000000 ∷ []

-- The commit is queued in the first cycle and, once the window has passed, in the third.
accepted_times :
    map (λ e. e.1) (run_cycles steady settings ticks new_monitor).accepted
    ≡ 180000000000 ∷ 60000000000 ∷ []
unfolding run_cycles run_auto_deploy_cycle visit_all visit consider settle queue_outcome update
    remove normalize_commit_sha normalize_worker_environment auto_deploy_state_key evict_expired
    mark_queued was_recently_queued mark_service_cooldown clear_service_cooldown in_service_cooldown
    should_auto_deploy_service auto_deploy_enabled note_deploys build_auto_deploy_states trim_space
    to_lower equal_fold normalize_source_type
accepted_times = refl

run_cycles_spaced_example :
    AreSpaced 120000000000 (run_cycles steady settings ticks new_monitor).accepted
run_cycles_spaced_example =
    run_cycles_spaced steady settings ticks (omega arith, (omega arith, (omega arith, tt)))

-- A service that has run for two hours without a request, and the cluster that answers so.
abbrev sleepy : ServicePayload
sleepy = record shop { pause_on_idle = true; max_replicas = pos 4 }

abbrev deployed : DeploymentInfo
deployed = record {
  generation = pos 1;
  creation_timestamp = some 1000000000;
  revision_annotation = "";
  spec_replicas = some (pos 1);
  observed_generation = pos 1;
  replicas = pos 1;
  updated_replicas = pos 1;
  ready_replicas = pos 1;
  available_replicas = pos 1;
  unavailable_replicas = pos 0;
  conditions = [];
}

abbrev silent : Cluster
silent = record {
  now = 7201000000000;
  deployment = ok deployed;
  requests = λ window. ok (pos 0 ∷ pos 0 ∷ []);
  deleted = none;
  applied = none;
  scaled = λ replicas. none;
}

abbrev idle_settings : IdleSettings
idle_settings = record {
  default_seconds = pos 3600;
  resume_seconds = pos 300;
  parse_nano = λ s. none;
  parse_plain = λ s. none;
}

-- The autoscaler goes first, then the replicas.
pause_run :
    let o = handle_pause_when_idle idle_settings silent "releasea-apps-production" "shop" sleepy in
    (o.status ≡ "idle")
    × (o.reason ≡ "Paused after 1 hour without traffic")
    × (o.calls ≡ query_traffic (pos 3600000000000) ∷ delete_autoscaler ∷ scale (pos 0) ∷ [])
unfolding handle_pause_when_idle resolve_pause_idle_window resolve_pause_resume_window
    pause_idle_reason idle_observation_complete workload_revision_time has_request_activity
    format_idle_window pause_after_idle suspend_idle_autoscaler idle_autoscaler_enabled
    resume_replicas at_least at_most trim_space to_lower equal_fold
pause_run = (refl, refl, refl)

pause_windows_bounds_example :
    let idle = resolve_pause_idle_window idle_settings sleepy in
    let resume = resolve_pause_resume_window idle_settings idle in
    (60000000000 ≤ idle)
    × (idle ≤ 604800000000000)
    × (resume ≤ℤ pos idle)
    × ((pos 30000000000 ≤ℤ resume) ⊎ (pos 9223372036 <ℤ idle_settings.resume_seconds))
pause_windows_bounds_example = pause_windows_bounds idle_settings sleepy

-- So many seconds that the product is negative.
resume_window_wraps :
    resolve_pause_resume_window
      (record idle_settings { resume_seconds = pos 9223372037 })
      60000000000
    ≡ negsuc 9223372036709551615
unfolding resolve_pause_resume_window wrap_int64 at_least
resume_window_wraps = refl

abbrev restored : Value
restored =
    autoscaler_resource "releasea-apps-production" "shop" "service-1" (pos 1) (pos 4) (pos 100)

restored_first :
    In
      (apply_autoscaler restored)
      (restore_idle_autoscaler silent "releasea-apps-production" "shop" sleepy).1
unfolding restore_idle_autoscaler idle_autoscaler_enabled idle_autoscaler_resource resume_replicas
    target_cpu trim_space to_lower equal_fold
restored_first = inl refl

-- The deploy of a service that is gone from the registry, and a cluster without its deployment.
abbrev curation : Curation
curation = record {
  parse = λ stamp. some 0;
  sprint = λ value. "";
  now = 700000000000;
  max_age = 600000000000;
  service = λ id. err (new_error "service not found");
  look = λ namespace. record {
    deployment = λ name. err err_deployment_not_found;
    pods = λ name. ok [];
  };
}

abbrev curator : Config
curator = record {
  worker_id = "w-1";
  worker_name = "worker";
  environment = "prod";
  cluster = "";
  tags = [];
  operation_claim_lease_ttl = pos 120;
  internal_domain = "";
  external_domain = "";
  internal_gateway = "";
  external_gateway = "";
  static_nginx_service = "";
  static_nginx_namespace = "";
  namespace_overrides = none;
}

abbrev stale : OperationPayload
stale = record {
  kind = "service.deploy";
  id = "op-1";
  status = "in-progress";
  resource = "service-1";
  deploy_id = "deploy-1";
  rule_deploy_id = "";
  service_name = "Shop";
  payload = [];
  created_at = "2026-01-01T00:00:00Z";
  started_at = "";
  updated_at = "";
}
