-- ===== src/Workers/Process.antt =====
-- workers_operation_process.go. The operations API, the executors and the clock answer as they like:
-- an `Env` gives the reply to each call from the calls made so far. A run returns its error and the
-- log of its calls, the newest first; `log.Printf` is left out.
pub mod Trace
use releasea_worker.Prelude.{
  ℕ, zero, suc, ◌+◌, ◌/◌, ltb, String, Bool, true, false, not, ◌&&◌, ◌||◌, Option, none, some, List,
  [], ◌∷◌, ◌⧺◌, if◌then◌else◌, ◌==◌,
}
use releasea_worker.Prelude.Int.{ℤ, pos, at_least, pos_part, leb_ℤ}
use releasea_worker.Models.Failure.{Error, err_operation_not_compatible, err_operation_lease_lost}
use releasea_worker.Models.Payload.{Value, str, num, Payload}
use releasea_worker.Models.Operation.{
  OperationPayload, Config, status_queued, status_succeeded, status_failed, type_service_deploy,
  type_rule_deploy, type_rule_publish,
}
use releasea_worker.Deploys.Strategy.{
  operation_strategy_type, strategy_requires_rollback, is_transient_deploy_error,
  is_rollback_performed_error,
}
use releasea_worker.Workers.Compatibility.{operation_compatible_with_worker}

-- A call of one of the processor's function fields.
pub data Call : Type 0 where
  fetch : (id : String) → Call
  claim : (id : String) → Call
  renew : (id : String) → Call
  execute : (id : String) → Call
  wait : (seconds : ℤ) → Call
  update_status : (id status message : String) → Call
  update_strategy :
      (deploy_id status strategy_type phase summary : String) → (details : Payload) → Call

pub record Entry : Type 0 where
  pub call : Call
  pub failure : Option Error

-- `ticks` says how often the heartbeat's ticker fires before the next call returns.
pub record Env : Type 0 where
  pub reply : List Entry → Call → Option Error
  pub fetched : List Entry → String → OperationPayload
  pub ticks : List Entry → ℕ
  pub retry_delay_seconds : ℤ
  pub retry_max_attempts : ℤ

-- `beating` is the operation whose claim the heartbeat renews, while it runs; `lost` is what the
-- heartbeat has sent on `heartbeatErr`.
pub record Session : Type 0 where
  pub log : List Entry
  pub beating : Option String
  pub lost : Option Error

unfoldable pub is_retryable_operation : OperationPayload → Bool
is_retryable_operation op =
    if op.kind == type_service_deploy
    then not (op.deploy_id == "")
    else if op.kind == type_rule_deploy || op.kind == type_rule_publish
    then not (op.rule_deploy_id == "")
    else false

unfoldable pub should_retry_operation : OperationPayload → Error → ℕ → ℕ → Bool
should_retry_operation op exec_err attempt max_attempts =
    if not (is_retryable_operation op)
    then false
    else if not (is_transient_deploy_error exec_err)
    then false
    else ltb attempt max_attempts

unfoldable pub rollback_summary : String → String
rollback_summary strategy_type =
    if strategy_type == "blue-green"
    then "Switching back to the previous active environment"
    else if strategy_type == "canary"
    then "Stopping gradual exposure and restoring the previous version"
    else "Restoring the previous version"

-- `deployRetryMaxAttempts` and `deployRetryDelay`.
unfoldable pub deploy_retry_max_attempts : Env → ℕ
unfolding at_least
deploy_retry_max_attempts env = pos_part (at_least (pos 1) env.retry_max_attempts)

unfoldable pub deploy_retry_delay : Env → ℤ
unfolding at_least
deploy_retry_delay env = at_least (pos 1) env.retry_delay_seconds

abbrev lease_of : Option String → List Entry → Env → ℕ
lease_of none log env = 0
lease_of (some id) log env = env.ticks log

-- One tick of the heartbeat: the goroutine returns once a renewal has failed.
abbrev renew_claim : Env → String → Session → Session
renew_claim env id s = record s {
  log = record { call = renew id; failure = env.reply s.log (renew id) } ∷ s.log;
  lost = env.reply s.log (renew id);
}

abbrev tick_of : Env → Option String → Option Error → Session → Session
tick_of env none lost s = s
tick_of env (some id) (some err) s = s
tick_of env (some id) none s = renew_claim env id s

unfoldable pub tick : Env → Session → Session
tick env s = tick_of env s.beating s.lost s

unfoldable pub heartbeat : Env → ℕ → Session → Session
heartbeat env zero s = s
heartbeat env (suc n) s = heartbeat env n (tick env s)

-- A call of the main goroutine; the heartbeat may tick before it returns.
abbrev pub answer : Env → Call → Session → Option Error × Session
answer env c s =
    (env.reply s.log c, record s { log = record { call = c; failure = env.reply s.log c } ∷ s.log })

unfoldable pub perform : Env → Call → Session → Option Error × Session
perform env c s = answer env c (heartbeat env (lease_of s.beating s.log env) s)

-- `updateRetryingStatus`; a failed report is only logged.
unfoldable pub update_retrying_status :
    Env → OperationPayload → String → ℕ → ℕ → Error → Session → Session
update_retrying_status env op strategy_type attempt max_attempts exec_err s =
    if not (op.kind == type_service_deploy) || op.deploy_id == ""
    then s
    else (perform env
        (update_strategy op.deploy_id "retrying" strategy_type "retrying"
          "Temporary instability detected. Retrying deployment"
          (("attempt", num (pos attempt))
            ∷ ("maxAttempts", num (pos max_attempts))
            ∷ ("error", str exec_err.message)
            ∷ []))
        s).1

-- What follows a failed attempt: report, wait, and go on with `again`.
abbrev after_wait :
    Option Error × Session → (Session → Option Error × Session) → Option Error × Session
after_wait (some err, s) again = (some err, s)
after_wait (none, s) again = again s

unfoldable pub retry_after :
    Env
    → OperationPayload
    → String
    → ℕ
    → ℕ
    → Error
    → Session
    → (Session → Option Error × Session)
    → Option Error × Session
retry_after env op strategy_type attempt max_attempts exec_err s again =
    let s' = update_retrying_status env op strategy_type attempt max_attempts exec_err s in
    after_wait (perform env (wait (deploy_retry_delay env)) s') again

abbrev after_attempt :
    Env
    → OperationPayload
    → String
    → ℕ
    → ℕ
    → Option Error × Session
    → (Error → Session → Option Error × Session)
    → Option Error × Session
after_attempt env op strategy_type attempt max_attempts (none, s) again = (none, s)
after_attempt env op strategy_type attempt max_attempts (some err, s) again =
    if not (should_retry_operation op err attempt max_attempts)
    then (some err, s)
    else retry_after env op strategy_type attempt max_attempts err s (again err)

-- `for attempt := 1; attempt <= maxAttempts; attempt++`, by the rounds that are left.
unfoldable pub attempt_from :
    Env → OperationPayload → String → ℕ → ℕ → ℕ → Option Error → Session → Option Error × Session
attempt_from env op strategy_type max_attempts attempt zero exec_err s = (exec_err, s)
attempt_from env op strategy_type max_attempts attempt (suc left) exec_err s =
    after_attempt env op strategy_type attempt max_attempts (perform env (execute op.id) s)
      (λ err s'. attempt_from env op strategy_type max_attempts (suc attempt) left (some err) s')

unfoldable pub max_attempts_for : Env → OperationPayload → ℕ
max_attempts_for env op = if is_retryable_operation op then deploy_retry_max_attempts env else 1

unfoldable pub execute_with_retry : Env → OperationPayload → Session → Option Error × Session
execute_with_retry env op s =
    attempt_from env op (operation_strategy_type op) (max_attempts_for env op) 1
      (max_attempts_for env op) none s

-- The `select` on `heartbeatErr` after the heartbeat has stopped.
abbrev lease_result : Option Error → Option Error → Option Error
lease_result (some err) exec_err = some (record err_operation_lease_lost {
  message = err_operation_lease_lost.message ⧺ ": " ⧺ err.message;
})
lease_result none exec_err = exec_err

abbrev stop_heartbeat : Env → Option Error × Session → Option Error × Session
stop_heartbeat env (exec_err, s) =
    let s' = heartbeat env (lease_of s.beating s.log env) s in
    (lease_result s'.lost exec_err, record s' { beating = none })

unfoldable pub execute_with_lease_heartbeat :
    Env → Config → OperationPayload → Session → Option Error × Session
execute_with_lease_heartbeat env cfg op s =
    if leb_ℤ cfg.operation_claim_lease_ttl (pos 0)
    then execute_with_retry env op s
    else stop_heartbeat env
        (execute_with_retry env op (record s { beating = some op.id; lost = none }))

-- `updateDeployFailureStatus`.
unfoldable pub update_deploy_failure_status : Env → OperationPayload → Error → Session → Session
update_deploy_failure_status env op exec_err s =
    let strategy_type = operation_strategy_type op in
    let details = ("error", str exec_err.message) ∷ [] in
    if not (op.kind == type_service_deploy) || op.deploy_id == ""
    then s
    else if strategy_requires_rollback strategy_type && is_rollback_performed_error exec_err
    then (perform env
        (update_strategy op.deploy_id "rolling-back" strategy_type "rolling-back"
          (rollback_summary strategy_type) details)
        s).1
    else (perform env
        (update_strategy op.deploy_id "failed" strategy_type "failed"
          "Deployment failed with a permanent inconsistency" details)
        s).1

-- A conflict on the last status update means that another worker has completed the operation.
abbrev unless_conflict : Option Error → Option Error
unless_conflict none = none
unless_conflict (some err) = if err.operation_conflict then none else some err

abbrev completed : Option Error × Session → Option Error × Session
completed (failure, s) = (unless_conflict failure, s)

unfoldable pub fail_operation : Env → OperationPayload → Error → Session → Option Error × Session
fail_operation env op exec_err s = completed (
    perform env (update_status op.id status_failed exec_err.message)
      (update_deploy_failure_status env op exec_err s))

-- What `processOperation` does with the outcome of the execution.
unfoldable pub finish_operation :
    Env → OperationPayload → Option Error × Session → Option Error × Session
finish_operation env op (none, s) =
    completed (perform env (update_status op.id status_succeeded "") s)
finish_operation env op (some err, s) =
    if err.lease_lost then (some err, s) else fail_operation env op err s

abbrev after_claim :
    Env → Config → OperationPayload → Option Error × Session → Option Error × Session
after_claim env cfg op (none, s) =
    finish_operation env op (execute_with_lease_heartbeat env cfg op s)
after_claim env cfg op (some err, s) = (unless_conflict (some err), s)

unfoldable pub process_operation :
    Env → Config → OperationPayload → Session → Option Error × Session
process_operation env cfg op s =
    if not (op.status == status_queued)
    then (none, s)
    else if not (operation_compatible_with_worker cfg op).0
    then (some err_operation_not_compatible, s)
    else after_claim env cfg op (perform env (claim op.id) s)

abbrev pub after_fetch :
    Env → Config → OperationPayload → Option Error × Session → Option Error × Session
after_fetch env cfg op (some err, s) = (some err, s)
after_fetch env cfg op (none, s) = process_operation env cfg op s

unfoldable pub process_operation_by_id : Env → Config → String → Session → Option Error × Session
process_operation_by_id env cfg id s =
    after_fetch env cfg (env.fetched s.log id) (perform env (fetch id) s)

abbrev pub started : Session
started = record { log = []; beating = none; lost = none }
