-- ===== src/Deploys/Examples.antt =====
-- A concrete cluster, and the theorems on waiting applied to it.
use releasea_worker.Prelude.{
  true, false, equal_fold, trim_space, ℕ, zero, suc, ◌+◌, ◌*◌, String, Option, none, some, List, [],
  ◌∷◌, ◌≡◌, refl, ◌≢◌, In, ◌↔◌, ◌⊎◌, All, arith,
}
use releasea_worker.Prelude.Int.{pos, at_least}
use releasea_worker.Models.Failure.{Error, ok, err, err_deployment_not_found, new_error}
use releasea_worker.Models.Runtime.{DeploymentInfo}
use releasea_worker.Shared.Strategy.{normalize_type, resolve_blue_green_slots}
use releasea_worker.Deploys.BlueGreen.{
  SlotCall, await_ready, await_rollout, fetch_service, point_service, record_slot, observe, delete,
  await_retired, Surroundings, attempt, switch_canonical_service, roll_back_traffic, clean_up,
  observe_candidate, promote_blue_green,
}
use releasea_worker.Deploys.BlueGreen.Order.{traffic, has_delete}
use releasea_worker.Deploys.Readiness.{
  collect_pending_workload_readiness, deployment_failure_reason, evaluate_deployment_pods,
  first_pod_failure, first_condition, is_workload_readiness_required, DeploymentResourceHint,
  collect_hinted_deployment_names, resolve_workload_targets_with_hints,
}
use releasea_worker.Deploys.Readiness.Targets.{resolve_workload_targets_with_hints_lem}
use releasea_worker.Models.Service.{DeploymentStrategyConfig}
use releasea_worker.Shared.Unique.Laws.{IsDistinct}
use releasea_worker.Deploys.Readiness.Looks.{IsReady, collect_pending_workload_readiness_iff}
use releasea_worker.Deploys.Readiness.Wait.{
  resolve_readiness_polling_config, Round, wait_for, wait_for_service_deploy_readiness,
  wait_for_deployment_rollouts, wait_for_retired_workloads,
}
use releasea_worker.Deploys.Readiness.Wait.Ends.{
  IsTimed, enough, wait_for_service_deploy_readiness_ends,
}
use releasea_worker.Deploys.Readiness.Wait.Rollouts.{IsRolledOut, wait_for_deployment_rollouts_ends}
use releasea_worker.Deploys.Readiness.Wait.Retired.{IsGone, wait_for_retired_workloads_ends}

-- A deployment with `n` of its two replicas available.
abbrev with_available : ℕ → DeploymentInfo
with_available n = record {
  generation = pos 2;
  creation_timestamp = none;
  revision_annotation = "";
  spec_replicas = some (pos 2);
  observed_generation = pos 2;
  replicas = pos 2;
  updated_replicas = pos 2;
  ready_replicas = pos n;
  available_replicas = pos n;
  unavailable_replicas = pos 0;
  conditions = [];
}

-- The workload comes up in the third round; rounds are five seconds apart.
abbrev available_at : ℕ → ℕ
available_at zero = 0
available_at (suc zero) = 0
available_at (suc (suc i)) = 2

abbrev round_at : ℕ → Round
round_at i = record {
  cancelled = none;
  look = record { deployment = λ name. ok (with_available (available_at i)); pods = λ name. ok [] };
  now = 1000 + i * 5000000000;
  interrupted = none;
}

-- The same clock over a cluster that holds nothing.
abbrev empty_at : ℕ → Round
empty_at i = record (round_at i) {
  look = record { deployment = λ name. err err_deployment_not_found; pods = λ name. ok [] };
}

fives : IsTimed (resolve_readiness_polling_config (pos 60) (pos 5)).1 round_at
unfolding resolve_readiness_polling_config at_least
fives i = omega arith

fives_empty : IsTimed (resolve_readiness_polling_config (pos 60) (pos 5)).1 empty_at
unfolding resolve_readiness_polling_config at_least
fives_empty i = omega arith

shop_is_awaited :
    (wait_for_service_deploy_readiness 1000 60 ("shop" ∷ []) round_at 3 ≡ some none)
    × (wait_for_service_deploy_readiness 1000 60 ("shop" ∷ []) round_at 2 ≡ none)
unfolding wait_for_service_deploy_readiness wait_for collect_pending_workload_readiness
    deployment_failure_reason evaluate_deployment_pods first_pod_failure first_condition
shop_is_awaited = (refl, refl)

abbrev awaited : List String
awaited = "shop" ∷ []

wait_for_service_deploy_readiness_ends_example :
    let seconds = (resolve_readiness_polling_config (pos 60) (pos 5)).0 in
    (result : Option Error) × (wait_for_service_deploy_readiness 1000 seconds awaited round_at
        (enough seconds)
      ≡ some result)
    × (result ≡ none → (awaited ≡ []) ⊎ ((i : ℕ) × All (IsReady (round_at i).look) awaited))
wait_for_service_deploy_readiness_ends_example =
    wait_for_service_deploy_readiness_ends 1000 (pos 60) (pos 5) awaited round_at (omega arith)
      fives

collect_pending_workload_readiness_iff_example :
    (collect_pending_workload_readiness (round_at 2).look ("shop" ∷ "shop-canary" ∷ []) ≡ ok [])
    ↔ All (IsReady (round_at 2).look) ("shop" ∷ "shop-canary" ∷ [])
collect_pending_workload_readiness_iff_example =
    collect_pending_workload_readiness_iff (round_at 2).look ("shop" ∷ "shop-canary" ∷ [])

wait_for_deployment_rollouts_ends_example :
    let seconds = (resolve_readiness_polling_config (pos 60) (pos 5)).0 in
    (result : Option Error) × (wait_for_deployment_rollouts 1000 seconds
        ("shop" ∷ [])
        round_at
        (enough seconds)
      ≡ some result)
    × (result ≡ none → (i : ℕ) × All (IsRolledOut (round_at i).look) ("shop" ∷ []))
wait_for_deployment_rollouts_ends_example =
    wait_for_deployment_rollouts_ends 1000 (pos 60) (pos 5) ("shop" ∷ []) round_at (omega arith)
      fives

wait_for_retired_workloads_ends_example :
    let seconds = (resolve_readiness_polling_config (pos 60) (pos 5)).0 in
    (result : Option Error) × (wait_for_retired_workloads 1000 seconds
        ("shop-canary" ∷ [])
        empty_at
        (enough seconds)
      ≡ some result)
    × (result ≡ none → (i : ℕ) × All (IsGone (empty_at i).look) ("shop-canary" ∷ []))
wait_for_retired_workloads_ends_example =
    wait_for_retired_workloads_ends 1000 (pos 60) (pos 5) ("shop-canary" ∷ []) empty_at
      (omega arith) fives_empty

-- The API refuses to record the slot: the traffic goes back.
abbrev refusing_reply : SlotCall → Option Error
refusing_reply (record_slot slot) = some (new_error "conflict")
refusing_reply (await_ready name) = none
refusing_reply (await_rollout name) = none
refusing_reply fetch_service = none
refusing_reply (point_service app) = none
refusing_reply (observe seconds) = none
refusing_reply (delete resource) = none
refusing_reply (await_retired name) = none

abbrev refusing : Surroundings
refusing = record { reply = λ log c. refusing_reply c; observation_seconds = pos 30 }

refused_run :
    let (result, log) = promote_blue_green refusing "shop" "blue" [] in
    (result ≡ err (record (new_error "conflict") { rollback_performed = true }))
    × (traffic log ≡ some "shop-blue")
    × (has_delete log ≡ false)
unfolding promote_blue_green attempt switch_canonical_service roll_back_traffic
    resolve_blue_green_slots equal_fold trim_space
refused_run = (refl, refl, refl)

abbrev willing : Surroundings
willing = record { reply = λ log c. none; observation_seconds = pos 30 }

willing_run :
    let (result, log) = promote_blue_green willing "shop" "blue" [] in
    (result ≡ ok "green") × (traffic log ≡ some "shop-green")
unfolding promote_blue_green attempt switch_canonical_service observe_candidate clean_up
    resolve_blue_green_slots equal_fold trim_space at_least
willing_run = (refl, refl)

abbrev rolling : DeploymentStrategyConfig
rolling = record { kind = "Rolling"; canary_percent = pos 0; blue_green_primary = "" }

abbrev shop_hints : List DeploymentResourceHint
shop_hints =
    record { name = " shop-web"; namespace = "" }
    ∷ record { name = "shop-web"; namespace = "a" }
    ∷ []

resolve_workload_targets_with_hints_lem_example :
    let targets = resolve_workload_targets_with_hints "microservice" "" rolling "shop" shop_hints in
    let hinted = collect_hinted_deployment_names shop_hints in
    let required = is_workload_readiness_required "microservice" "" in
    let deploy = normalize_type "" "Rolling" in
    (IsDistinct targets × ((x : String) → In x targets → x ≢ ""))
    × (required ≡ false → targets ≡ [])
    × (required ≡ true → deploy ≡ "rolling" → hinted ≢ [] → targets ≡ hinted)
    × (required ≡ true
        → hinted ≡ []
        → trim_space "shop" ≢ ""
        → deploy ≢ "blue-green"
        → In (trim_space "shop") targets)
resolve_workload_targets_with_hints_lem_example =
    resolve_workload_targets_with_hints_lem "microservice" "" rolling "shop" shop_hints
