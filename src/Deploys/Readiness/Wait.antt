-- ===== src/Deploys/Readiness/Wait.antt =====
-- deploys_deploy_readiness_check.go: the three loops that poll the cluster until nothing is pending. Each
-- has the same rounds: is the context done, what does a look say, is the deadline past, wait. A loop
-- runs on fuel; `none` says that the fuel is out.
pub mod Ends
pub mod Live
pub mod Retired
pub mod Rollouts
use releasea_worker.Prelude.{
  ℕ, zero, suc, ◌+◌, ◌*◌, ltb, String, Bool, true, false, not, ◌&&◌, ◌||◌, Option, none, some, List,
  [], ◌∷◌, ◌⧺◌, ◌==◌, is_empty, join, if◌then◌else◌, trim_space, to_lower,
}
use releasea_worker.Prelude.Int.{ℤ, pos, pos_part, ltb_ℤ, at_least, itoa}
use releasea_worker.Models.Failure.{Error, Result, ok, err, new_error}
use releasea_worker.Models.Service.{DeploymentStrategyConfig}
use releasea_worker.Models.Runtime.{DeploymentInfo, PodInfo}
use releasea_worker.Deploys.Readiness.{
  Look, with_pending, collect_pending_workload_readiness, resolve_workload_targets_with_hints,
}

-- `resolveReadinessPollingConfig`, from the values of the two environment variables.
unfoldable pub resolve_readiness_polling_config : ℤ → ℤ → ℕ × ℕ
resolve_readiness_polling_config timeout poll =
    (pos_part (at_least (pos 30) timeout), pos_part (at_least (pos 1) poll))

-- What a round meets: the context at its start, the cluster, the clock, and the context in its wait.
pub record Round : Type 0 where
  pub cancelled : Option Error
  pub look : Look
  pub now : ℕ
  pub interrupted : Option Error

abbrev pub after_timer : Option Error → Option (Option Error) → Option (Option Error)
after_timer (some e) again = some (some e)
after_timer none again = again

abbrev pub after_check :
    String → ℕ → Round → Result (List String) → Option (Option Error) → Option (Option Error)
after_check text deadline round (err e) again = some (some e)
after_check text deadline round (ok []) again = some none
after_check text deadline round (ok (line ∷ lines)) again =
    if ltb deadline round.now
    then some (some (new_error (text ⧺ join (line ∷ lines) "; ")))
    else after_timer round.interrupted again

abbrev pub after_start : Option Error → Option (Option Error) → Option (Option Error)
after_start (some e) rest = some (some e)
after_start none rest = rest

unfoldable pub wait_for :
    (Look → Result (List String)) → String → ℕ → (ℕ → Round) → ℕ → ℕ → Option (Option Error)
wait_for check text deadline rounds zero i = none
wait_for check text deadline rounds (suc fuel) i =
    let again = wait_for check text deadline rounds fuel (suc i) in
    after_start (rounds i).cancelled
      (after_check text deadline (rounds i) (check (rounds i).look) again)

-- The deadline of a loop that starts at `start`.
abbrev pub deadline_of : ℕ → ℕ → ℕ
deadline_of start timeout = start + timeout * 1000000000

-- `waitForServiceDeployReadiness` with the resolved `targets`.
unfoldable pub wait_for_service_deploy_readiness :
    ℕ → ℕ → List String → (ℕ → Round) → ℕ → Option (Option Error)
wait_for_service_deploy_readiness start timeout targets rounds fuel =
    if is_empty targets
    then some none
    else wait_for (λ look. collect_pending_workload_readiness look targets)
        "timeout waiting for workload readiness: " (deadline_of start timeout) rounds fuel 0

abbrev positive_or : ℤ → Option ℤ → ℤ
positive_or status none = status
positive_or status (some spec) = if ltb_ℤ (pos 0) spec then spec else status

unfoldable pub rollout_desired : DeploymentInfo → ℤ
rollout_desired deploy = at_least (pos 1) (positive_or deploy.replicas deploy.spec_replicas)

unfoldable pub rollout_pending_reason : String → DeploymentInfo → String
rollout_pending_reason name deploy =
    let desired = rollout_desired deploy in
    if ltb_ℤ (pos 0) deploy.generation && ltb_ℤ deploy.observed_generation deploy.generation
    then name ⧺ " rollout has not observed the new spec yet"
    else if ltb_ℤ deploy.updated_replicas desired
    then name ⧺ " is still updating (" ⧺ itoa deploy.updated_replicas ⧺ "/" ⧺ itoa desired ⧺ ")"
    else if ltb_ℤ deploy.ready_replicas desired || ltb_ℤ deploy.available_replicas desired
    then name ⧺ " is not fully available yet"
    else if ltb_ℤ desired deploy.replicas || ltb_ℤ (pos 0) deploy.unavailable_replicas
    then name ⧺ " still has previous pods shutting down"
    else ""

abbrev pub with_reason : String → Result (List String) → Result (List String)
with_reason reason rest = if not (reason == "") then with_pending reason rest else rest

abbrev pub after_rollout_deployment :
    String → Result DeploymentInfo → Result (List String) → Result (List String)
after_rollout_deployment name (err e) rest =
    if e.deployment_not_found then with_pending (name ⧺ " not found") rest else err e
after_rollout_deployment name (ok deploy) rest =
    with_reason (rollout_pending_reason name deploy) rest

unfoldable pub collect_pending_rollouts : Look → List String → Result (List String)
collect_pending_rollouts look [] = ok []
collect_pending_rollouts look (raw ∷ names) =
    let name = trim_space raw in
    let rest = collect_pending_rollouts look names in
    if name == "" then rest else after_rollout_deployment name (look.deployment name) rest

unfoldable pub wait_for_deployment_rollouts :
    ℕ → ℕ → List String → (ℕ → Round) → ℕ → Option (Option Error)
wait_for_deployment_rollouts start timeout names rounds fuel =
    wait_for (λ look. collect_pending_rollouts look names)
      "timeout waiting for the new version to be fully live: " (deadline_of start timeout) rounds
      fuel 0

unfoldable pub live_pod_count : List PodInfo → ℕ
live_pod_count [] = 0
live_pod_count (pod ∷ pods) =
    let phase = to_lower (trim_space pod.phase) in
    let rest = live_pod_count pods in
    if phase == "succeeded" || phase == "failed" then rest else suc rest

abbrev pub after_retired_pods :
    String → Result (List PodInfo) → Result (List String) → Result (List String)
after_retired_pods name (err e) rest = err e
after_retired_pods name (ok pods) rest =
    if ltb 0 (live_pod_count pods)
    then with_pending (name ⧺ " pods are still running") rest
    else rest

abbrev pub after_retired_deployment :
    Look → String → Result DeploymentInfo → Result (List String) → Result (List String)
after_retired_deployment look name (ok deploy) rest =
    with_pending (name ⧺ " deployment still exists") (after_retired_pods name (look.pods name) rest)
after_retired_deployment look name (err e) rest =
    if e.deployment_not_found then after_retired_pods name (look.pods name) rest else err e

unfoldable pub collect_retired : Look → List String → Result (List String)
collect_retired look [] = ok []
collect_retired look (raw ∷ names) =
    let name = trim_space raw in
    let rest = collect_retired look names in
    if name == "" then rest else after_retired_deployment look name (look.deployment name) rest

unfoldable pub wait_for_retired_workloads :
    ℕ → ℕ → List String → (ℕ → Round) → ℕ → Option (Option Error)
wait_for_retired_workloads start timeout names rounds fuel =
    wait_for (λ look. collect_retired look names)
      "timeout waiting for previous deployments to finish: " (deadline_of start timeout) rounds fuel
      0
