-- ===== src/Workers/Examples.antt =====
-- Concrete runs of the worker: its tests, and the theorems applied to them.
use releasea_worker.Prelude.{
  ℕ, ◌≤◌, ◌<◌, true, false, Option, none, some, List, [], ◌∷◌, ◌≡◌, refl, ◌≢◌, ◌↔◌, ◌⊎◌, All, ◌+◌,
  trim_space, lookup, to_lower, insert, contains, equal_fold, has_prefix,
}
use releasea_worker.Prelude.Int.{pos, at_least}
use releasea_worker.Models.Failure.{Error, Result, ok, err, new_error}
use releasea_worker.Models.Payload.{str, strs, payload_string, payload_string_slice}
use releasea_worker.Models.Operation.{
  OperationPayload, Config, status_queued, status_succeeded, status_failed, type_service_deploy,
}
use releasea_worker.Shared.Namespace.{
  resolve_app_namespace, apply_override, apply_overrides, default_namespace_mapping,
  is_valid_app_namespace, load_namespace_mapping,
}
use releasea_worker.Shared.Strategy.{normalize_type}
use releasea_worker.Shared.Unique.{member, unique_from}
use releasea_worker.Deploys.Strategy.{
  is_transient_deploy_error, normalize_strategy_type, operation_strategy_type,
}
use releasea_worker.Workers.Compatibility.{
  operation_compatible_with_worker, operation_allows_environment_fallback, normalize_worker_tags,
  has_all_tags,
}
use releasea_worker.Workers.Compatibility.Laws.{
  MatchesEnvironment, MatchesCluster, MatchesTags, operation_compatible_with_worker_iff,
}
use releasea_worker.Workers.Process.{
  Call, fetch, claim, renew, execute, wait, update_status, update_strategy, Entry, Env,
  process_operation, max_attempts_for, started, perform, finish_operation,
  execute_with_lease_heartbeat, heartbeat, execute_with_retry, attempt_from, deploy_retry_delay,
  deploy_retry_max_attempts, is_retryable_operation, retry_after, should_retry_operation, tick,
  update_retrying_status,
}
use releasea_worker.Workers.Process.Trace.{
  executions, reports, last_report, last_execution, lease_failed,
}
use releasea_worker.Workers.Process.Trace.Claim.{IsGuarded, process_operation-IsGuarded}
use releasea_worker.Workers.Process.Trace.Attempts.{RetriesAreJustified}
use releasea_worker.Workers.Process.Trace.Idle.{IsBetween}
use releasea_worker.Workers.Process.Trace.Verdict.{
  process_operation-reports, process_operation_lease_lost, process_operation_attempts,
}
use releasea_worker.Workers.PoolControl.{PoolControl, Cache, pool_control_cache_ttl, get, blocks}
use releasea_worker.Workers.PoolControl.Loads.{Ask, asked, Fails, LastLoad, get_lem}
use releasea_worker.Workers.Consumer.{requeue, Event, done, closed, delivered, consume}
use releasea_worker.Workers.Consumer.Laws.{taken, consume-IsBetween, consume_blocked}

abbrev worker : Config
worker = record {
  worker_id = "w-1";
  worker_name = "worker";
  environment = "prod";
  cluster = "eu-1";
  tags = " gpu " ∷ "ssd" ∷ [];
  operation_claim_lease_ttl = pos 60;
  internal_domain = "";
  external_domain = "";
  internal_gateway = "";
  external_gateway = "";
  static_nginx_service = "";
  static_nginx_namespace = "";
  namespace_overrides = none;
}

abbrev deploy : OperationPayload
deploy = record {
  kind = type_service_deploy;
  id = "op-1";
  status = status_queued;
  resource = "service-1";
  deploy_id = "deploy-1";
  rule_deploy_id = "";
  service_name = "shop";
  payload = ("environment", str "prod") ∷ ("workerTags", strs ("gpu" ∷ [])) ∷ [];
  created_at = "";
  started_at = "";
  updated_at = "";
}

-- The first execution times out, later ones succeed; all other calls succeed.
abbrev execution_reply : List Entry → Option Error
execution_reply [] = some (new_error "read: connection reset by peer")
execution_reply (e ∷ []) = some (new_error "read: connection reset by peer")
execution_reply (e ∷ d ∷ log) = none

abbrev flaky_reply : List Entry → Call → Option Error
flaky_reply log (execute id) = execution_reply log
flaky_reply log (fetch id) = none
flaky_reply log (claim id) = none
flaky_reply log (renew id) = none
flaky_reply log (wait d) = none
flaky_reply log (update_status id st m) = none
flaky_reply log (update_strategy d st ty ph su de) = none

abbrev flaky : Env
flaky = record {
  reply = flaky_reply;
  fetched = λ log id. deploy;
  ticks = λ log. 0;
  retry_delay_seconds = pos 6;
  retry_max_attempts = pos 3;
}

-- Every renewal fails, everything else succeeds, and the heartbeat ticks before each call.
abbrev losing_reply : List Entry → Call → Option Error
losing_reply log (renew id) = some (new_error "lease expired")
losing_reply log (execute id) = none
losing_reply log (fetch id) = none
losing_reply log (claim id) = none
losing_reply log (wait d) = none
losing_reply log (update_status id st m) = none
losing_reply log (update_strategy d st ty ph su de) = none

abbrev losing : Env
losing = record flaky { reply = losing_reply; ticks = λ log. 1 }

-- The first run is retried and succeeds; the second loses its lease.
runs :
    let (failure, s) = process_operation flaky worker deploy started in
    let lost = (process_operation losing worker deploy started).1 in
    (failure ≡ none)
    × (executions s.log ≡ 2)
    × (last_report s.log ≡ some status_succeeded)
    × (lease_failed lost.log ≡ true)
    × (executions lost.log ≡ 1)
unfolding process_operation operation_compatible_with_worker trim_space payload_string lookup
    operation_allows_environment_fallback resolve_app_namespace to_lower normalize_worker_tags
    unique_from payload_string_slice has_all_tags perform finish_operation
    execute_with_lease_heartbeat heartbeat execute_with_retry attempt_from is_transient_deploy_error
    normalize_strategy_type operation_strategy_type at_least insert contains equal_fold has_prefix
    apply_override apply_overrides default_namespace_mapping is_valid_app_namespace
    load_namespace_mapping normalize_type member deploy_retry_delay deploy_retry_max_attempts
    is_retryable_operation max_attempts_for retry_after should_retry_operation tick
    update_retrying_status
runs = (refl, refl, refl, refl, refl)

process_operation-reports_example :
    let log = (process_operation flaky worker deploy started).1.log in
    (reports log ≤ 1)
    × ((last_report log ≡ some status_succeeded)
        ↔ ((last_execution log ≡ some none) × (lease_failed log ≡ false)))
    × (last_report log ≡ some status_failed
        → (last_execution log ≢ some none) × (lease_failed log ≡ false))
process_operation-reports_example = process_operation-reports flaky worker deploy

process_operation_lease_lost_example :
    let r = process_operation losing worker deploy started in
    (reports r.1.log ≡ 0) × ((err : Error) × (r.0 ≡ some err) × (err.lease_lost ≡ true))
process_operation_lease_lost_example = process_operation_lease_lost losing worker deploy runs.3

process_operation_attempts_example :
    let log = (process_operation flaky worker deploy started).1.log in
    (executions log ≤ max_attempts_for flaky deploy) × RetriesAreJustified log
process_operation_attempts_example = process_operation_attempts flaky worker deploy

process_operation-IsGuarded_example :
    IsGuarded (process_operation flaky worker deploy started).1.log
process_operation-IsGuarded_example =
    process_operation-IsGuarded flaky worker deploy started refl tt

operation_compatible_with_worker_iff_example :
    ((operation_compatible_with_worker worker deploy).0 ≡ true)
    ↔ (MatchesEnvironment worker deploy × MatchesCluster worker deploy × MatchesTags worker deploy)
operation_compatible_with_worker_iff_example = operation_compatible_with_worker_iff worker deploy

-- A pool that drains, and one that does not.
abbrev draining : PoolControl
draining = record { id = "pool"; maintenance_enabled = false; drain_enabled = true }

abbrev running : PoolControl
running = record { id = "pool"; maintenance_enabled = false; drain_enabled = false }

abbrev delivery : Result PoolControl → Event
delivery control =
    delivered
      (record { body = "{}"; operation_id = some "op-1"; control = control; interrupted = none })

abbrev quiet_stream : List Event
quiet_stream = delivery (ok draining) ∷ delivery (ok draining) ∷ closed ∷ []

abbrev stream : List Event
stream =
    delivery (ok draining)
    ∷ delivery (ok running)
    ∷ delivery (err (new_error "timeout"))
    ∷ done
    ∷ []

taken_tests : (taken stream ≡ 3) × (blocks (ok draining) ≡ true)
unfolding blocks
taken_tests = (refl, refl)

consume-IsBetween_example : IsBetween (consume flaky worker stream started).session
consume-IsBetween_example = consume-IsBetween flaky worker stream started (refl, tt)

consume_blocked_example :
    ((consume flaky worker quiet_stream started).session ≡ started)
    × ((consume flaky worker quiet_stream started).dispositions ≡ requeue ∷ requeue ∷ [])
consume_blocked_example =
    consume_blocked flaky worker quiet_stream started (taken_tests.1, (taken_tests.1, tt))

abbrev no_error : Option Error
no_error = none

abbrev empty_cache : Cache
empty_cache = record {
  value = record { id = ""; maintenance_enabled = false; drain_enabled = false };
  loaded_at = 0;
  has_value = false;
}

-- A value that has been loaded four seconds ago, in nanoseconds, is still used.
abbrev first_ask : Ask
first_ask = record { now = 500; fetched = ok draining; later = 1000 }

get_lem_example :
    let r = get (asked empty_cache (first_ask ∷ [])) 4000001000 (ok running) 4000002000 in
    ((v : PoolControl)
      → r.0 ≡ ok v
      → ((ok running ≡ ok v)
          × (All Fails (first_ask ∷ [])
              ⊎ ((u : PoolControl) × (t : ℕ) × LastLoad u t (first_ask ∷ [])
                  × (t + pool_control_cache_ttl ≤ 4000001000))))
        ⊎ ((t : ℕ) × LastLoad v t (first_ask ∷ [])
            × ((4000001000 < t + pool_control_cache_ttl) ⊎ ((e : Error) × (ok running ≡ err e)))))
    × ((e : Error) → r.0 ≡ err e → All Fails (first_ask ∷ []) × (ok running ≡ err e))
get_lem_example = get_lem empty_cache (first_ask ∷ []) 4000001000 (ok running) 4000002000 refl
