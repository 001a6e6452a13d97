-- ===== src/Deploys/Canary/Promote.antt =====
-- deploys_strategy_canary_promote.go: `HandlePromoteCanary`. The requests are answered from the calls made
-- so far; the steps that are only reported and logged are left out. `deploys_service_deploy.go` has its
-- own copy of the clean-up of the rules, which is the one in Rules/Guard, word for word.
pub mod Order
use releasea_worker.Prelude.{
  String, Bool, true, false, not, ◌⧺◌, Option, none, some, List, [], ◌∷◌, any, lookup, ◌==◌,
  if◌then◌else◌,
}
use releasea_worker.Prelude.Int.{ℤ}
use releasea_worker.Models.Payload.{Value, Payload, payload_string}
use releasea_worker.Models.Failure.{Error, Result, ok, err, new_error, wrap}
use releasea_worker.Models.Operation.{Config, OperationPayload}
use releasea_worker.Models.Service.{ServicePayload}
use releasea_worker.Shared.KubeName.{to_kube_name}
use releasea_worker.Shared.Namespace.{resolve_app_namespace}
use releasea_worker.Shared.Strategy.{normalize_type}
use releasea_worker.Deploys.Hints.{map_value, string_value}
use releasea_worker.Deploys.Canary.{
  promote_canary_virtual_service, virtual_service_references_workload,
}
use releasea_worker.Deploys.Canary.Retarget.{
  retarget_deployment, retarget_service, set_zero_downtime_rolling_strategy,
  stamp_deployment_promotion, clean_resource_for_reapply, resolve_desired_replicas_for_promote,
}
use releasea_worker.Rules.Cluster.{
  Log, Surroundings, Act, pure, raise, continue, ◌>>=◌, ◌>>◌, outcome, apply_resource, resource_id,
}
use releasea_worker.Rules.Guard.{cleanup_unused_strategy_workloads}

-- What the promotion asks for beside the cluster: `fetchServiceContext`, the two waits of
-- deploys_deploy_readiness_check.go, and the time.
pub record Promotion : Type 0 where
  pub cluster : Surroundings
  pub context : Log → String → String → Result ServicePayload
  pub rollout : Log → String → String → Option Error
  pub retired : Log → String → List String → Option Error
  pub now : Log → String

abbrev pub wrapped_result : {A : Type 0} → String → Result A → Result A
wrapped_result text (ok a) = ok a
wrapped_result text (err e) = err (wrap text e)

-- `fmt.Errorf("…: %w", err)` around the error of a run.
abbrev pub wrapping : {A : Type 0} → String → Act A → Act A
wrapping text m log = (wrapped_result text (m log).0, (m log).1)

abbrev pub ask : {A : Type 0} → (Log → Result A) → Act A
ask f log = (f log, log)

module _ (sprint : Value → String) (env : Promotion) (namespace service_name : String) where
  abbrev pub canary_name : String
  canary_name = service_name ⧺ "-canary"

  abbrev shift_error : Payload → String
  shift_error vs =
      "shift virtual service "
      ⧺ string_value sprint (map_value (lookup "metadata" vs)) "name"
      ⧺ " off canary: "

  abbrev pub shift_one : Payload × Bool → Act (Unit {0})
  shift_one (vs, false) = pure tt
  shift_one (vs, true) =
      wrapping (shift_error (clean_resource_for_reapply sprint vs))
        (apply_resource env.cluster (clean_resource_for_reapply sprint vs))

  unfoldable pub shift_each : List Payload → Act (Unit {0})
  shift_each [] = pure tt
  shift_each (vs ∷ rest) =
      shift_one (promote_canary_virtual_service sprint service_name namespace vs) >> shift_each rest

  abbrev pub listed : Act (List Payload)
  listed =
      wrapping "list virtual services before canary promote: "
        (ask (λ log. env.cluster.virtual_services log namespace))

  unfoldable pub shift_published_canary_traffic : Act (Unit {0})
  shift_published_canary_traffic = listed >>= shift_each

  abbrev pub remains : List Payload → Bool
  remains services =
      any (λ vs. virtual_service_references_workload sprint vs canary_name namespace) services

  -- `canaryTrafficRemains`, and the error where it does.
  abbrev pub stop_if_remains : List Payload → Act (Unit {0})
  stop_if_remains services =
      if remains services
      then raise (new_error "published traffic still references the canary")
      else pure tt

  unfoldable pub check_published : Act (Unit {0})
  check_published = ask (λ log. env.cluster.virtual_services log namespace) >>= stop_if_remains

  abbrev pub await_rollout : Act (Unit {0})
  await_rollout =
      wrapping "stable target not ready after canary promote: "
        (ask (λ log. outcome (env.rollout log namespace service_name)))

  abbrev pub await_retired : Act (Unit {0})
  await_retired =
      wrapping "previous canary did not finish shutting down: "
        (ask (λ log. outcome (env.retired log namespace (canary_name ∷ []))))

  abbrev pub remove_canary : Act (Unit {0})
  remove_canary =
      wrapping "remove previous canary workload: "
        (cleanup_unused_strategy_workloads sprint env.cluster namespace service_name "rolling")

  abbrev pub move_traffic : Payload → Act (Unit {0})
  move_traffic service = do
    wrapping "apply stable service: " (apply_resource env.cluster service)
    shift_published_canary_traffic

  -- From the first call that changes something on.
  unfoldable pub promote_canary : Payload → Payload → Act (Unit {0})
  promote_canary deployment service = do
    wrapping "apply stable deployment: " (apply_resource env.cluster deployment)
    await_rollout
    move_traffic service
    check_published
    remove_canary
    await_retired

  abbrev stable_deployment : ServicePayload → Log → Payload → Payload
  stable_deployment service log deployment =
      let replicas = resolve_desired_replicas_for_promote service in
      let cleaned = clean_resource_for_reapply sprint deployment in
      stamp_deployment_promotion
        (set_zero_downtime_rolling_strategy
          (retarget_deployment cleaned service_name service_name replicas))
        (env.now log)

  abbrev stable_service : Payload → Payload
  stable_service service =
      retarget_service (clean_resource_for_reapply sprint service) service_name service_name

  abbrev pub promote_fetched : ServicePayload → Act (Unit {0})
  promote_fetched service =
      wrapping "canary deployment not found (promote only after canary deploy): "
        (ask (λ log. env.cluster.resource log (resource_id "Deployment" namespace canary_name)))
      >>= λ deployment.
          wrapping "canary service not found: "
            (ask (λ log. env.cluster.resource log (resource_id "Service" namespace canary_name)))
          >>= λ found. λ log.
            promote_canary (stable_deployment service log deployment) (stable_service found) log

abbrev or_prod : String → String
or_prod environment = if environment == "" then "prod" else environment

abbrev promoted_name : ServicePayload → String
promoted_name service =
    if to_kube_name service.name == "" then to_kube_name service.id else to_kube_name service.name

abbrev promote_service :
    (Value → String) → Promotion → Config → String → ServicePayload → Act (Unit {0})
promote_service sprint env cfg environment service =
    let namespace = resolve_app_namespace cfg.namespace_overrides environment in
    if not (normalize_type service.deploy_template_id service.deployment_strategy.kind == "canary")
    then raise (new_error "service is not using canary strategy")
    else if promoted_name service == ""
    then raise (new_error "service name invalid")
    else ask (λ log. outcome env.cluster.client)
      >> promote_fetched sprint env namespace (promoted_name service) service

unfoldable pub handle_promote_canary :
    (Value → String) → Promotion → Config → OperationPayload → Act (Unit {0})
handle_promote_canary sprint env cfg op =
    let environment = or_prod (payload_string op.payload "environment") in
    if op.resource == ""
    then raise (new_error "service id missing")
    else ask (λ log. env.context log op.resource environment)
      >>= promote_service sprint env cfg environment
