-- ===== src/Maintenance/Idle.antt =====
-- maintenance_runtime_status_monitor.go: pausing a service that gets no traffic, and resuming it. Times
-- and windows are nanoseconds; a request rate that is no whole number counts as the next one above.
pub mod Bounds
pub mod Safety
use releasea_worker.Prelude.{
  ℕ, ◌+◌, ◌-◌, ◌*◌, ◌/◌, ◌%◌, ltb, leb, String, Bool, true, false, not, ◌&&◌, ◌||◌, Option, none,
  some, List, [], ◌∷◌, ◌++◌, ◌⧺◌, ◌==◌, ◌=ℕ◌, any, if◌then◌else◌, trim_space, to_lower, equal_fold,
  ◌≡◌, refl,
}
use releasea_worker.Prelude.Int.{ℤ, pos, negsuc, pos_part, ltb_ℤ, leb_ℤ, at_least, at_most, itoa}
use releasea_worker.Models.Failure.{Error, Result, ok, err}
use releasea_worker.Models.Payload.{Value, num, str, arr, obj, no_items, item, no_fields, field}
use releasea_worker.Models.Service.{ServicePayload}
use releasea_worker.Models.Runtime.{DeploymentInfo}

-- The values of the two environment variables, and `time.Parse` with its two layouts.
pub record IdleSettings : Type 0 where
  pub default_seconds : ℤ
  pub resume_seconds : ℤ
  pub parse_nano : String → Option ℕ
  pub parse_plain : String → Option ℕ

-- The calls that change the cluster or ask for the traffic.
pub data IdleCall : Type 0 where
  query_traffic : (window : ℤ) → IdleCall
  delete_autoscaler : IdleCall
  apply_autoscaler : (resource : Value) → IdleCall
  scale : (replicas : ℤ) → IdleCall

-- The answers to the calls of one evaluation.
pub record Cluster : Type 0 where
  pub now : ℕ
  pub deployment : Result DeploymentInfo
  pub requests : ℕ → Result (List ℤ)
  pub deleted : Option Error
  pub applied : Option Error
  pub scaled : ℤ → Option Error

-- The three results of `handlePauseWhenIdle`, and the calls it makes, in their order.
pub record IdleOutcome : Type 0 where
  pub handled : Bool
  pub status : String
  pub reason : String
  pub calls : List IdleCall

unfoldable pub resume_replicas : ServicePayload → ℤ
resume_replicas service =
    if ltb_ℤ (pos 0) service.min_replicas
    then service.min_replicas
    else if ltb_ℤ (pos 0) service.replicas
    then service.replicas
    else pos 1

unfoldable pub idle_autoscaler_enabled : ServicePayload → Bool
idle_autoscaler_enabled service =
    let strategy = to_lower (trim_space service.deployment_strategy.kind) in
    if equal_fold (trim_space service.deploy_template_id) "tpl-cronjob"
    then false
    else if strategy == "canary" || strategy == "blue-green"
    then false
    else ltb_ℤ (resume_replicas service) service.max_replicas

unfoldable pub target_cpu : ServicePayload → ℤ
target_cpu service = if leb_ℤ service.cpu (pos 0) then pos 70 else service.cpu

-- The resource that `idleAutoscalerResource` builds from its numbers.
unfoldable pub autoscaler_resource : String → String → String → ℤ → ℤ → ℤ → Value
autoscaler_resource namespace name service_id min_replicas max_replicas cpu =
    let labels =
      obj (field "app" (str name) (field "releasea.service" (str service_id) no_fields)) in
    let target =
      obj (field "type" (str "Utilization") (field "averageUtilization" (num cpu) no_fields)) in
    let resource = obj (field "name" (str "cpu") (field "target" target no_fields)) in
    let metric = obj (field "type" (str "Resource") (field "resource" resource no_fields)) in
    let scale_target = obj (
      field "apiVersion" (str "apps/v1")
        (field "kind" (str "Deployment") (field "name" (str name) no_fields))) in
    obj (
      field "apiVersion" (str "autoscaling/v2") (
        field "kind" (str "HorizontalPodAutoscaler") (
          field "metadata"
            (obj (
              field "name" (str name)
                (field "namespace" (str namespace) (field "labels" labels no_fields))))
            (field "spec"
              (obj (
                field "scaleTargetRef" scale_target (
                  field "minReplicas" (num min_replicas) (
                    field "maxReplicas" (num max_replicas)
                      (field "metrics" (arr (item metric no_items)) no_fields)))))
              no_fields))))

unfoldable pub idle_autoscaler_resource : String → String → ServicePayload → Value
idle_autoscaler_resource namespace name service =
    autoscaler_resource namespace name service.id (resume_replicas service) service.max_replicas
      (target_cpu service)

-- `suspendIdleAutoscaler` and `restoreIdleAutoscaler`, with the calls that they make.
unfoldable pub suspend_idle_autoscaler : Cluster → ServicePayload → Option Error × List IdleCall
suspend_idle_autoscaler cluster service =
    if not (idle_autoscaler_enabled service)
    then (none, [])
    else (cluster.deleted, delete_autoscaler ∷ [])

unfoldable pub restore_idle_autoscaler :
    Cluster → String → String → ServicePayload → Option Error × List IdleCall
restore_idle_autoscaler cluster namespace name service =
    if not (idle_autoscaler_enabled service)
    then (none, [])
    else (cluster.applied, apply_autoscaler (idle_autoscaler_resource namespace name service) ∷ [])

abbrev pub seconds : ℤ → ℕ
seconds v = pos_part v * 1000000000

unfoldable pub resolve_pause_idle_window : IdleSettings → ServicePayload → ℕ
resolve_pause_idle_window settings service =
    let chosen =
      if leb_ℤ service.pause_idle_timeout_seconds (pos 0)
      then settings.default_seconds
      else service.pause_idle_timeout_seconds in
    seconds (at_most (pos 604800) (at_least (pos 60) chosen))

-- A number of nanoseconds as an int64 holds it.
unfoldable pub wrap_int64 : ℕ → ℤ
wrap_int64 n =
    let r = n % 18446744073709551616 in
    if ltb r 9223372036854775808 then pos r else negsuc (18446744073709551615 - r)

-- The seconds have no upper bound, so that the product may wrap around.
unfoldable pub resolve_pause_resume_window : IdleSettings → ℕ → ℤ
resolve_pause_resume_window settings idle_window =
    let window = wrap_int64 (seconds (at_least (pos 30) settings.resume_seconds)) in
    if ltb 0 idle_window && ltb_ℤ (pos idle_window) window then pos idle_window else window

abbrev first_parsed : Option ℕ → Option ℕ → Option ℕ
first_parsed none second = second
first_parsed (some t) second = some t

-- The later of the two times.
abbrev latest : Option ℕ → Option ℕ → Option ℕ
latest none annotated = annotated
latest (some created) none = some created
latest (some created) (some annotated) =
    if ltb created annotated then some annotated else some created

unfoldable pub workload_revision_time : IdleSettings → DeploymentInfo → Option ℕ
workload_revision_time settings deploy =
    let raw = trim_space deploy.revision_annotation in
    latest deploy.creation_timestamp (
      if not (raw == "")
      then first_parsed (settings.parse_nano raw) (settings.parse_plain raw)
      else none)

abbrev is_past : Option ℕ → ℕ → ℕ → Bool
is_past none window now = true
is_past (some revised_at) window now = not (ltb now (revised_at + window))

-- `revisedAt` is after `now - idleWindow` just when `revisedAt + idleWindow` is after `now`.
unfoldable pub idle_observation_complete : IdleSettings → DeploymentInfo → ℕ → ℕ → Bool
idle_observation_complete settings deploy now idle_window =
    if idle_window =ℕ 0
    then true
    else is_past (workload_revision_time settings deploy) idle_window now

abbrev any_positive : Result (List ℤ) → Result Bool
any_positive (err e) = err e
any_positive (ok values) = ok (any (λ value. ltb_ℤ (pos 0) value) values)

abbrev or_hour : ℤ → ℕ
or_hour window = if leb_ℤ window (pos 0) then 3600000000000 else pos_part window

unfoldable pub has_request_activity : Cluster → ℤ → Result Bool
has_request_activity cluster window = any_positive (cluster.requests (or_hour window))

unfoldable pub format_idle_window : ℕ → String
format_idle_window duration =
    let whole = duration / 60000000000 in
    let minutes = if not (duration % 60000000000 =ℕ 0) then whole + 1 else whole in
    if duration =ℕ 0
    then "1 hour"
    else if leb minutes 1
    then "1 minute"
    else if minutes % 60 =ℕ 0
    then (if minutes / 60 =ℕ 1 then "1 hour" else itoa (pos (minutes / 60)) ⧺ " hours")
    else itoa (pos minutes) ⧺ " minutes"

unfoldable pub pause_idle_reason : ℕ → String
pause_idle_reason idle_window =
    "Paused after " ⧺ format_idle_window idle_window ⧺ " without traffic"

abbrev pub pass : List IdleCall → IdleOutcome
pass calls = record { handled = false; status = ""; reason = ""; calls = calls }

abbrev pub report : String → String → List IdleCall → IdleOutcome
report status reason calls = record {
  handled = true;
  status = status;
  reason = reason;
  calls = calls;
}

-- The workload has been scaled up again, or the scaling has failed.
abbrev resumed : Option Error → Option Error → String → List IdleCall → IdleOutcome
resumed (some e) autoscaler target calls = report "unknown" "Failed to resume from idle state" calls
resumed none (some e) target calls =
    report "pending"
      ("Resuming from idle state (" ⧺ target ⧺ " replicas); autoscaler restoration pending") calls
resumed none none target calls =
    report "pending" ("Resuming from idle state (" ⧺ target ⧺ " replicas)") calls

unfoldable pub resume_from_idle :
    Cluster → String → String → ServicePayload → List IdleCall → IdleOutcome
resume_from_idle cluster namespace name service before =
    let target = resume_replicas service in
    let restored = restore_idle_autoscaler cluster namespace name service in
    resumed (cluster.scaled target) restored.0 (itoa target)
      (before ++ (restored.1 ++ (scale target ∷ [])))

abbrev paused : Option Error → String → List IdleCall → IdleOutcome
paused (some e) idle_reason calls = report "unknown" "Failed to pause after idle period" calls
paused none idle_reason calls = report "idle" idle_reason calls

abbrev after_suspend : Cluster → String → Option Error → List IdleCall → IdleOutcome
after_suspend cluster idle_reason (some e) calls =
    report "unknown" "Unable to suspend autoscaling before idle pause" calls
after_suspend cluster idle_reason none calls =
    paused (cluster.scaled (pos 0)) idle_reason (calls ++ (scale (pos 0) ∷ []))

unfoldable pub pause_after_idle : Cluster → String → ServicePayload → List IdleCall → IdleOutcome
pause_after_idle cluster idle_reason service before =
    let suspended = suspend_idle_autoscaler cluster service in
    after_suspend cluster idle_reason suspended.0 (before ++ suspended.1)

-- The workload has no replica: is there traffic again?
abbrev while_idle :
    Cluster → String → String → String → ServicePayload → List IdleCall → Result Bool → IdleOutcome
while_idle cluster namespace name idle_reason service calls (err e) =
    report "idle" idle_reason calls
while_idle cluster namespace name idle_reason service calls (ok traffic) =
    if traffic
    then resume_from_idle cluster namespace name service calls
    else report "idle" idle_reason calls

-- The workload runs: has there been traffic in the whole window?
abbrev while_running : Cluster → String → ServicePayload → List IdleCall → Result Bool → IdleOutcome
while_running cluster idle_reason service calls (err e) = pass calls
while_running cluster idle_reason service calls (ok traffic) =
    if traffic then pass calls else pause_after_idle cluster idle_reason service calls

abbrev after_deployment :
    IdleSettings → Cluster → String → String → ServicePayload → Result DeploymentInfo → IdleOutcome
after_deployment settings cluster namespace name service (err e) =
    if e.deployment_not_found then pass [] else report "unknown" "Unable to evaluate idle state" []
after_deployment settings cluster namespace name service (ok deploy) =
    let idle_window = resolve_pause_idle_window settings service in
    let resume_window = resolve_pause_resume_window settings idle_window in
    let reason = pause_idle_reason idle_window in
    if not (idle_observation_complete settings deploy cluster.now idle_window)
    then pass []
    else if leb_ℤ deploy.replicas (pos 0)
    then while_idle cluster namespace name reason service (query_traffic resume_window ∷ [])
        (has_request_activity cluster resume_window)
    else while_running cluster reason service (query_traffic (pos idle_window) ∷ [])
        (has_request_activity cluster (pos idle_window))

unfoldable pub handle_pause_when_idle :
    IdleSettings → Cluster → String → String → ServicePayload → IdleOutcome
handle_pause_when_idle settings cluster namespace name service =
    after_deployment settings cluster namespace name service cluster.deployment

format_tests :
    (format_idle_window 3600000000000 ≡ "1 hour")
    × (format_idle_window 90000000000 ≡ "2 minutes")
    × (format_idle_window 7200000000000 ≡ "2 hours")
unfolding format_idle_window itoa
format_tests = (refl, refl, refl)
