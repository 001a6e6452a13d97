-- ===== src/Deploys/Readiness.antt =====
-- deploys_deploy_readiness_check.go: which workloads a deploy waits for, and what one look at the
-- cluster says of them.
pub mod Wait
pub mod Looks
pub mod Targets
use releasea_worker.Prelude.{
  ℕ, zero, suc, String, Bool, true, false, not, ◌&&◌, ◌||◌, Option, none, some, List, [], ◌∷◌, ◌++◌,
  ◌⧺◌, ◌==◌, is_empty, map, if◌then◌else◌, trim_space, to_lower, equal_fold,
}
use releasea_worker.Prelude.Int.{ℤ, pos, ltb_ℤ, leb_ℤ, at_least, itoa}
use releasea_worker.Models.Failure.{Error, Result, ok, err, new_error, wrap}
use releasea_worker.Models.Service.{DeploymentStrategyConfig}
use releasea_worker.Models.Runtime.{Condition, DeploymentInfo, Terminated, ContainerStatus, PodInfo}
use releasea_worker.Shared.Unique.{unique_strings}
use releasea_worker.Shared.Strategy.{normalize_type, resolve_blue_green_slots}

unfoldable pub is_workload_readiness_required : String → String → Bool
is_workload_readiness_required kind template =
    if equal_fold (trim_space kind) "static-site"
    then false
    else if equal_fold (trim_space template) "tpl-cronjob"
    then false
    else true

pub record DeploymentResourceHint : Type 0 where
  pub name : String
  pub namespace : String

unfoldable pub collect_hinted_deployment_names : List DeploymentResourceHint → List String
collect_hinted_deployment_names hints =
    unique_strings (map (λ (h : DeploymentResourceHint). h.name) hints)

abbrev first_or : String → List String → String
first_or name [] = name
first_or name (hint ∷ hints) = if name == "" then hint else name

-- The three cases of the `switch` on the strategy.
unfoldable pub strategy_targets : String → String → String → List String → List String
strategy_targets strategy primary name hinted =
    let slots = resolve_blue_green_slots primary in
    if strategy == "canary"
    then name ∷ (name ⧺ "-canary") ∷ []
    else if strategy == "blue-green"
    then (name ⧺ "-" ⧺ slots.0) ∷ (name ⧺ "-" ⧺ slots.1) ∷ []
    else if is_empty hinted
    then name ∷ []
    else hinted

unfoldable pub resolve_workload_targets_with_hints :
    String → String → DeploymentStrategyConfig → String → List DeploymentResourceHint → List String
resolve_workload_targets_with_hints kind template strategy service_name hints =
    let hinted = collect_hinted_deployment_names hints in
    let name = first_or (trim_space service_name) hinted in
    if name == "" && is_empty hinted
    then []
    else if not (is_workload_readiness_required kind template)
    then []
    else unique_strings (
        strategy_targets (normalize_type template strategy.kind) strategy.blue_green_primary name
          hinted)

-- `waitingFailureReason` and `terminatedFailureReason`: the reason, where there is a failure.
unfoldable pub waiting_failure_reason : String → Option String
waiting_failure_reason raw =
    let reason = trim_space raw in
    if reason == "CrashLoopBackOff"
      || (reason == "ImagePullBackOff"
          || reason == "ErrImagePull"
          || reason == "InvalidImageName"
          || reason == "RegistryUnavailable")
      || (reason == "CreateContainerConfigError"
          || reason == "CreateContainerError"
          || reason == "RunContainerError")
    then some reason
    else none

unfoldable pub terminated_failure_reason : Terminated → Option String
terminated_failure_reason term =
    let reason = trim_space term.reason in
    if leb_ℤ term.exit_code (pos 0) && leb_ℤ (pos 0) term.exit_code
    then none
    else if reason == ""
    then some ("exit code " ⧺ itoa term.exit_code)
    else some reason

abbrev pub and_then {ℓ κ} : {A : Type ℓ} {B : Type κ} → Option A → (A → Option B) → Option B
and_then none f = none
and_then (some a) f = f a

abbrev pub or_else {ℓ} : {A : Type ℓ} → Option A → Option A → Option A
or_else none next = next
or_else (some a) next = some a

-- One round of the loop over the containers, without the pod's name.
unfoldable pub container_failure : ContainerStatus → Option String
container_failure c = or_else (and_then c.waiting waiting_failure_reason) (
    or_else (and_then c.terminated terminated_failure_reason) (
      or_else
        (if leb_ℤ (pos 1) c.restart_count
          then and_then c.last_terminated terminated_failure_reason
          else none)
        (if not c.ready && not (equal_fold c.name "istio-proxy") && leb_ℤ (pos 3) c.restart_count
          then some (c.name ⧺ " restarting")
          else none)))

unfoldable pub first_failure : List ContainerStatus → Option String
first_failure [] = none
first_failure (c ∷ cs) = or_else (container_failure c) (first_failure cs)

unfoldable pub evaluate_pod_failure : PodInfo → Option String
evaluate_pod_failure pod =
    let trimmed = trim_space pod.name in
    let pod_name = if trimmed == "" then "pod" else trimmed in
    if equal_fold pod.phase "Failed"
    then some (pod_name ⧺ " failed")
    else and_then (first_failure (pod.init_container_statuses ++ pod.container_statuses))
        (λ reason. some (pod_name ⧺ ": " ⧺ reason))

unfoldable pub first_pod_failure : List PodInfo → Option String
first_pod_failure [] = none
first_pod_failure (pod ∷ pods) = or_else (evaluate_pod_failure pod) (first_pod_failure pods)

-- What the Kubernetes API answers in one look at the cluster.
pub record Look : Type 0 where
  pub deployment : String → Result DeploymentInfo
  pub pods : String → Result (List PodInfo)

abbrev pod_failure : Result (List PodInfo) → Option String
pod_failure (err e) = none
pod_failure (ok pods) = first_pod_failure pods

unfoldable pub evaluate_deployment_pods : Look → String → Option String
evaluate_deployment_pods look name = if name == "" then none else pod_failure (look.pods name)

abbrev pub first_text : String → String → String → String
first_text reason message otherwise =
    if not (reason == "") then reason else if not (message == "") then message else otherwise

unfoldable pub condition_failure : Condition → Option String
condition_failure c =
    let reason = trim_space c.reason in
    let message = trim_space c.message in
    if c.kind == "Progressing" && equal_fold c.status "False"
    then some (first_text reason message "deployment not progressing")
    else if c.kind == "Available"
        && equal_fold c.status "False"
        && equal_fold reason "ProgressDeadlineExceeded"
    then some "progress deadline exceeded"
    else if c.kind == "ReplicaFailure" && equal_fold c.status "True"
    then some (first_text reason message "replica failure")
    else none

unfoldable pub first_condition : List Condition → Option String
first_condition [] = none
first_condition (c ∷ cs) = or_else (condition_failure c) (first_condition cs)

unfoldable pub deployment_failure_reason : DeploymentInfo → Option String
deployment_failure_reason deploy = first_condition deploy.conditions

abbrev with_pending : String → Result (List String) → Result (List String)
with_pending line (err e) = err e
with_pending line (ok lines) = ok (line ∷ lines)

abbrev unavailable_line : String → DeploymentInfo → String
unavailable_line target deploy =
    target
    ⧺ " unavailable (available="
    ⧺ itoa deploy.available_replicas
    ⧺ " desired="
    ⧺ itoa deploy.replicas
    ⧺ ")"

abbrev after_pods :
    String → DeploymentInfo → Option String → Result (List String) → Result (List String)
after_pods target deploy (some reason) rest = err (new_error reason)
after_pods target deploy none rest =
    if ltb_ℤ deploy.available_replicas (pos 1)
    then with_pending (unavailable_line target deploy) rest
    else rest

abbrev after_conditions :
    Look → String → DeploymentInfo → Option String → Result (List String) → Result (List String)
after_conditions look target deploy (some reason) rest = err (new_error (target ⧺ ": " ⧺ reason))
after_conditions look target deploy none rest =
    after_pods target deploy (evaluate_deployment_pods look target) rest

abbrev after_deployment :
    Look → String → Result DeploymentInfo → Result (List String) → Result (List String)
after_deployment look target (err e) rest =
    if e.deployment_not_found
    then with_pending (target ⧺ " not found") rest
    else err (wrap ("failed to inspect deployment " ⧺ target ⧺ ": ") e)
after_deployment look target (ok deploy) rest =
    after_conditions look target deploy (deployment_failure_reason deploy) rest

unfoldable pub collect_pending_workload_readiness : Look → List String → Result (List String)
collect_pending_workload_readiness look [] = ok []
collect_pending_workload_readiness look (target ∷ targets) =
    after_deployment look target (look.deployment target)
      (collect_pending_workload_readiness look targets)
