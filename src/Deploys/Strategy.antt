-- ===== src/Deploys/Strategy.antt =====
-- internal/features/deploys/worker/deploys_strategy_resolve.go.
use releasea_worker.Prelude.{
  String, Bool, true, ◌||◌, Option, none, some, List, [], ◌∷◌, any, ◌==◌, if◌then◌else◌, contains,
  to_lower,
}
use releasea_worker.Models.Failure.{Error}
use releasea_worker.Models.Payload.{payload_string}
use releasea_worker.Models.Operation.{OperationPayload}
use releasea_worker.Shared.Strategy.{normalize_type}

abbrev pub mark_rollback_performed : Option Error → Option Error
mark_rollback_performed none = none
mark_rollback_performed (some err) = some (record err { rollback_performed = true })

unfoldable pub is_rollback_performed_error : Error → Bool
is_rollback_performed_error err = err.rollback_performed

unfoldable pub normalize_strategy_type : String → String
normalize_strategy_type raw = normalize_type "" raw

unfoldable pub operation_strategy_type : OperationPayload → String
operation_strategy_type op = normalize_strategy_type (payload_string op.payload "strategyType")

unfoldable pub strategy_requires_rollback : String → Bool
strategy_requires_rollback strategy_type =
    let normalized = normalize_strategy_type strategy_type in
    normalized == "canary" || normalized == "blue-green"

abbrev pub transient_markers : List String
transient_markers =
    "timeout" ∷ "timed out" ∷ "temporary" ∷ "temporarily" ∷ "connection reset"
    ∷ "connection refused" ∷ "connection aborted" ∷ "connection lost" ∷ "broken pipe"
    ∷ "i/o timeout" ∷ "eof" ∷ "service unavailable" ∷ "bad gateway" ∷ "gateway timeout"
    ∷ "too many requests" ∷ "rate limit" ∷ "try again" ∷ []

unfoldable pub is_transient_deploy_error : Error → Bool
is_transient_deploy_error err =
    let text = to_lower err.message in
    if err.deadline_exceeded
    then true
    else if err.net_timeout
    then true
    else if err.net_temporary
    then true
    else any (λ marker. contains text marker) transient_markers
