-- ===== src/Maintenance/Curator.antt =====
-- maintenance_operations_curate.go: the curator settles service deploys that are in progress, one by one.
-- The pods are judged by the same code as in deploys_deploy_readiness_check.go.
pub mod Settled
pub mod Reports
use releasea_worker.Prelude.{
  ℕ, ◌+◌, ltb, String, Bool, true, false, not, ◌&&◌, ◌||◌, Option, none, some, List, [], ◌∷◌, ◌⧺◌,
  ◌==◌, ◌=ℕ◌, is_empty, if◌then◌else◌, equal_fold,
}
use releasea_worker.Prelude.Int.{ℤ, pos, ltb_ℤ}
use releasea_worker.Models.Failure.{Error, Result, ok, err}
use releasea_worker.Models.Payload.{Value, payload_string}
use releasea_worker.Models.Operation.{OperationPayload, Config, status_succeeded, status_failed}
use releasea_worker.Models.Service.{ServicePayload}
use releasea_worker.Models.Runtime.{Condition, DeploymentInfo}
use releasea_worker.Shared.KubeName.{to_kube_name}
use releasea_worker.Shared.Namespace.{resolve_app_namespace}
use releasea_worker.Deploys.Readiness.{
  Look, or_else, first_text, evaluate_deployment_pods, is_workload_readiness_required,
  resolve_workload_targets_with_hints,
}
use releasea_worker.Deploys.Hints.{
  extract_deployment_resource_hints, resolve_deploy_namespace_from_payload,
}

-- What the curator reads: `time.Parse` and `fmt.Sprint` of Go's library, the clock, the greatest age in
-- nanoseconds, the services, and the cluster by namespace.
pub record Curation : Type 0 where
  pub parse : String → Option ℕ
  pub sprint : Value → String
  pub now : ℕ
  pub max_age : ℕ
  pub service : String → Result ServicePayload
  pub look : String → Look

abbrev dated : Option ℕ → ℕ → ℕ → Bool → Bool
dated none now max_age later = later
dated (some t) now max_age later = ltb (t + max_age) now

-- The loop over the three stamps: the first that parses decides.
unfoldable pub first_stamp_exceeds : Curation → List String → Bool
first_stamp_exceeds cur [] = false
first_stamp_exceeds cur (stamp ∷ stamps) =
    let later = first_stamp_exceeds cur stamps in
    if stamp == "" then later else dated (cur.parse stamp) cur.now cur.max_age later

unfoldable pub op_age_exceeded : Curation → OperationPayload → Bool
op_age_exceeded cur op =
    if cur.max_age =ℕ 0
    then false
    else first_stamp_exceeds cur (op.started_at ∷ op.updated_at ∷ op.created_at ∷ [])

unfoldable pub curated_condition : Condition → Option String
curated_condition c =
    if c.kind == "Progressing" && equal_fold c.status "False"
    then some (first_text c.reason c.message "deployment not progressing")
    else if c.kind == "Available"
        && equal_fold c.status "False"
        && c.reason == "ProgressDeadlineExceeded"
    then some "progress deadline exceeded"
    else if c.kind == "ReplicaFailure" && equal_fold c.status "True"
    then some (first_text c.reason c.message "replica failure")
    else none

unfoldable pub curated_conditions : List Condition → Option String
curated_conditions [] = none
curated_conditions (c ∷ cs) = or_else (curated_condition c) (curated_conditions cs)

-- The three results of `evaluateDeploymentStatus`, as the three answers that it gives.
pub data Evaluation : Type 0 where
  ready : Evaluation
  failing : (reason : String) → Evaluation
  waiting : Evaluation

abbrev by_condition : Option String → Bool → Evaluation
by_condition (some reason) exceeded = failing reason
by_condition none exceeded =
    if exceeded then failing "timeout waiting for available replicas" else waiting

unfoldable pub evaluate_deployment_status : DeploymentInfo → Bool → Evaluation
evaluate_deployment_status deploy exceeded =
    if ltb_ℤ (pos 0) deploy.available_replicas
    then ready
    else by_condition (curated_conditions deploy.conditions) exceeded

-- What the loop over the targets comes to.
pub data Verdict : Type 0 where
  failed : (message : String) → Verdict
  all_ready : Verdict
  undecided : Verdict

-- A target that is not ready leaves the others to fail the operation, but not to complete it.
abbrev pub not_ready : Verdict → Verdict
not_ready (failed message) = failed message
not_ready all_ready = undecided
not_ready undecided = undecided

abbrev pub by_pods : Option String → Verdict → Verdict
by_pods (some reason) rest = failed reason
by_pods none rest = rest

abbrev pub by_evaluation : String → Evaluation → Option String → Verdict → Verdict
by_evaluation target (failing reason) pods rest = failed (target ⧺ ": " ⧺ reason)
by_evaluation target ready pods rest = by_pods pods rest
by_evaluation target waiting pods rest = by_pods pods (not_ready rest)

abbrev pub by_deployment : Look → Bool → String → Result DeploymentInfo → Verdict → Verdict
by_deployment look exceeded target (err e) rest =
    if e.deployment_not_found && exceeded
    then failed ("deployment " ⧺ target ⧺ " not found")
    else not_ready rest
by_deployment look exceeded target (ok deploy) rest =
    by_evaluation target (evaluate_deployment_status deploy exceeded)
      (evaluate_deployment_pods look target) rest

unfoldable pub curate_targets : Look → Bool → List String → Verdict
curate_targets look exceeded [] = all_ready
curate_targets look exceeded (target ∷ targets) =
    by_deployment look exceeded target (look.deployment target)
      (curate_targets look exceeded targets)

-- The final status that the curator reports, if it reports one.
abbrev pub reported : Verdict → Option (String × String)
reported (failed message) = some (status_failed, message)
reported all_ready = some (status_succeeded, "")
reported undecided = none

abbrev first_name : String → String → String
first_name name otherwise = if name == "" then otherwise else name

-- The workloads of an operation, with the service where it could be fetched.
unfoldable pub curated_targets :
    Curation → OperationPayload → String → Option ServicePayload → List String
curated_targets cur op name none = name ∷ []
curated_targets cur op name (some service) =
    let resolved =
      resolve_workload_targets_with_hints service.kind service.deploy_template_id
        service.deployment_strategy name
        (extract_deployment_resource_hints cur.sprint op.payload) in
    if is_empty resolved then name ∷ [] else resolved

unfoldable pub curate_named :
    Curation → Config → OperationPayload → String → Option ServicePayload → Option (String × String)
curate_named cur cfg op name service =
    let environment = payload_string op.payload "environment" in
    let namespace =
      resolve_deploy_namespace_from_payload cur.sprint op.payload
        (resolve_app_namespace cfg.namespace_overrides (first_name environment "prod")) in
    if name == ""
    then none
    else reported (
        curate_targets (cur.look namespace) (op_age_exceeded cur op)
          (curated_targets cur op name service))

abbrev with_service :
    Curation → Config → OperationPayload → Result ServicePayload → Option (String × String)
with_service cur cfg op (err e) =
    curate_named cur cfg op (first_name (to_kube_name op.service_name) (to_kube_name op.resource))
      none
with_service cur cfg op (ok service) =
    if not (is_workload_readiness_required service.kind service.deploy_template_id)
    then none
    else curate_named cur cfg op
        (first_name (to_kube_name op.service_name)
          (first_name (to_kube_name service.name) (to_kube_name op.resource)))
        (some service)

-- One round of the loop of `curateDeployments`.
unfoldable pub curate_deployment : Curation → Config → OperationPayload → Option (String × String)
curate_deployment cur cfg op =
    if op.resource == ""
    then curate_named cur cfg op
        (first_name (to_kube_name op.service_name) (to_kube_name op.resource)) none
    else with_service cur cfg op (cur.service op.resource)

-- What `curateDeployments` reports, in order.
unfoldable pub curate_deployments :
    Curation → Config → List OperationPayload → List (String × String × String)
curate_deployments cur cfg [] = []
curate_deployments cur cfg (op ∷ ops) =
    let rest = curate_deployments cur cfg ops in
    elim (curate_deployment cur cfg op) [
      | none ↦ rest
      | some (status, message) ↦ (op.id, status, message) ∷ rest
    ]
