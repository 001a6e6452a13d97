-- ===== src/Rules/Handle.antt =====
-- rules_rule_handle.go: the handlers of rule operations. `sprint` is `fmt.Sprint`; the deploy log is left out.
pub mod Spares
pub mod Calm
pub mod Removed
pub mod Led
use releasea_worker.Prelude.{
  String, Bool, true, false, not, ◌&&◌, ◌||◌, ◌⧺◌, Option, none, some, List, [], ◌∷◌, ◌==◌,
  is_empty, if◌then◌else◌, lookup, trim_space, to_lower, equal_fold,
}
use releasea_worker.Prelude.Int.{ℤ, pos, ltb_ℤ, at_least, at_most}
use releasea_worker.Models.Payload.{Value, Payload, payload_string, payload_int}
use releasea_worker.Models.Failure.{Error, Result, ok, err, new_error, wrap}
use releasea_worker.Models.Operation.{Config, OperationPayload}
use releasea_worker.Models.Service.{ServicePayload}
use releasea_worker.Models.Rule.{RulePayload}
use releasea_worker.Shared.Namespace.{resolve_app_namespace, validate_app_namespace}
use releasea_worker.Shared.KubeName.{to_kube_name}
use releasea_worker.Rules.Names.{
  denies, or_default, map_rule_gateways, build_deny_policy_name, rule_virtual_service_name,
}
use releasea_worker.Rules.Policy.{has_key}
use releasea_worker.Rules.Routes.{build_rule_virtual_service}
use releasea_worker.Rules.Access.{build_deny_authorization_policy}
use releasea_worker.Rules.Cluster.{
  Log, ClusterCall, ensure_namespace, Surroundings, Act, pure, raise, continue, ◌>>=◌, ◌>>◌,
  perform, apply_resource, delete_resource,
}
use releasea_worker.Rules.Apply.{
  reconcile_edge_resources, cleanup_edge_resources, cleanup_jwt_access_resources,
  reconcile_jwt_access_resources,
}
use releasea_worker.Rules.Guard.{
  resolve_deploy_strategy_type, normalize_for_availability, cleanup_unused_strategy_workloads,
}

unfoldable pub apply_rule_deploy_strategy_override : ServicePayload → Payload → ServicePayload
apply_rule_deploy_strategy_override service payload =
    if not (equal_fold (trim_space service.deployment_strategy.kind) "canary")
      || not (has_key "canaryPercentOverride" payload)
    then service
    else record service {
      deployment_strategy = record service.deployment_strategy {
        canary_percent =
            at_most (pos 50) (at_least (pos 0) (payload_int payload "canaryPercentOverride"));
      };
    }

-- `KubeClient`.
abbrev connect : Surroundings → Act (Unit {0})
connect env log = elim env.client [ none ↦ (ok tt, log) | some e ↦ (err e, log) ]

abbrev read : {A : Type 0} → (Log → Result A) → Act A
read f log = (f log, log)

abbrev ignore_error : Act (Unit {0}) → Act (Unit {0})
ignore_error m log = (ok tt, (m log).1)

abbrev remove_deny : Surroundings → Config → RulePayload → String → String → Act (Unit {0})
remove_deny env cfg rule namespace service_name = do
  delete_resource env "AuthorizationPolicy" namespace
      (build_deny_policy_name service_name rule.name rule.id)
  delete_resource env "VirtualService" namespace (rule_virtual_service_name service_name rule.id)
  cleanup_jwt_access_resources env namespace service_name rule.id
  cleanup_edge_resources env namespace service_name rule.id cfg

abbrev apply_deny :
    Surroundings
    → Config
    → RulePayload
    → ServicePayload
    → String
    → String
    → List String
    → Act (Unit {0})
apply_deny env cfg rule service namespace service_name gateways = do
  apply_resource env (
      build_deny_authorization_policy rule service service_name namespace
        (build_deny_policy_name service_name rule.name rule.id))
  delete_resource env "VirtualService" namespace (rule_virtual_service_name service_name rule.id)
  reconcile_edge_resources env namespace service_name rule service cfg gateways

-- A rule that denies, with the gateways that it is for.
unfoldable pub deploy_deny :
    Surroundings
    → Config
    → RulePayload
    → ServicePayload
    → String
    → String
    → List String
    → Act (Unit {0})
deploy_deny env cfg rule service namespace service_name gateways = do
  connect env
  perform env (ensure_namespace namespace)
  cleanup_jwt_access_resources env namespace service_name rule.id
  if is_empty gateways
      then remove_deny env cfg rule namespace service_name
      else apply_deny env cfg rule service namespace service_name gateways

abbrev deploy_routes :
    (Value → String)
    → Surroundings
    → Config
    → RulePayload
    → ServicePayload
    → String
    → String
    → List String
    → Act (Unit {0})
deploy_routes sprint env cfg rule service namespace service_name gateways = do
  apply_resource env (build_rule_virtual_service rule service service_name namespace cfg gateways)
  delete_resource env "AuthorizationPolicy" namespace
      (build_deny_policy_name service_name rule.name rule.id)
  reconcile_jwt_access_resources env namespace service_name rule service
  reconcile_edge_resources env namespace service_name rule service cfg gateways
  ignore_error (
      cleanup_unused_strategy_workloads sprint env namespace service_name
        (resolve_deploy_strategy_type service))

abbrev remove_routes : Surroundings → Config → String → String → String → Act (Unit {0})
remove_routes env cfg namespace service_name rule_id = do
  connect env
  delete_resource env "VirtualService" namespace (rule_virtual_service_name service_name rule_id)
  cleanup_jwt_access_resources env namespace service_name rule_id
  cleanup_edge_resources env namespace service_name rule_id cfg

abbrev guarded_routes :
    (Value → String)
    → Surroundings
    → Config
    → RulePayload
    → ServicePayload
    → Payload
    → String
    → String
    → List String
    → Act (Unit {0})
guarded_routes sprint env cfg rule service payload namespace service_name gateways = do
  connect env
  perform env (ensure_namespace namespace)
  service' ← read (λ log. ok (normalize_for_availability env log namespace service_name service))
  deploy_routes sprint env cfg rule (apply_rule_deploy_strategy_override service' payload) namespace
      service_name gateways

-- A rule that lets requests through.
unfoldable pub deploy_allow :
    (Value → String)
    → Surroundings
    → Config
    → RulePayload
    → ServicePayload
    → Payload
    → String
    → String
    → List String
    → Act (Unit {0})
deploy_allow sprint env cfg rule service payload namespace service_name gateways =
    if is_empty gateways
    then remove_routes env cfg namespace service_name rule.id
    else guarded_routes sprint env cfg rule service payload namespace service_name gateways

abbrev or_prod : String → String
or_prod environment = or_default (trim_space environment) "prod"

-- `if err := ValidateAppNamespace(namespace); err != nil`.
abbrev unless_blocked : String → Option String → Act (Unit {0}) → Act (Unit {0})
unless_blocked prefix none next = next
unless_blocked prefix (some message) next = raise (wrap prefix (new_error message))

-- From the two fetched records on.
unfoldable pub deploy_rule :
    (Value → String)
    → Surroundings
    → Config
    → Payload
    → RulePayload
    → ServicePayload
    → Act (Unit {0})
deploy_rule sprint env cfg payload rule service =
    let namespace = resolve_app_namespace cfg.namespace_overrides (or_prod rule.environment) in
    let service_name = or_default (to_kube_name service.name) (to_kube_name service.id) in
    let gateways = map_rule_gateways rule.gateways cfg in
    if denies rule && to_lower (trim_space rule.protocol) == "tcp"
    then raise (new_error "deny rules are not supported for tcp protocol")
    else unless_blocked "rule deploy blocked: " (validate_app_namespace namespace) (
        if service_name == ""
        then raise (new_error "service name invalid")
        else if denies rule
        then deploy_deny env cfg rule service namespace service_name gateways
        else deploy_allow sprint env cfg rule service payload namespace service_name gateways)

abbrev deploy_fetched :
    (Value → String) → Surroundings → Config → OperationPayload → RulePayload → Act (Unit {0})
deploy_fetched sprint env cfg op rule =
    if rule.service_id == ""
    then raise (new_error "rule missing service id")
    else read (λ log. env.service log rule.service_id)
      >>= deploy_rule sprint env cfg op.payload rule

unfoldable pub handle_rule_deploy :
    (Value → String) → Surroundings → Config → OperationPayload → Act (Unit {0})
handle_rule_deploy sprint env cfg op =
    if op.resource == ""
    then raise (new_error "rule id missing")
    else read (λ log. env.rule log op.resource) >>= deploy_fetched sprint env cfg op

abbrev fetched_name : Result ServicePayload → String
fetched_name (ok service) = service.name
fetched_name (err e) = ""

-- The name that the operation gives, or that of the service, where it can be fetched.
abbrev named_service : Surroundings → Log → Payload → String
named_service env log payload =
    let name = trim_space (payload_string payload "serviceName") in
    let id = trim_space (payload_string payload "serviceId") in
    if name == "" && not (id == "") then fetched_name (env.service log id) else name

abbrev delete_deny : Surroundings → Config → OperationPayload → String → String → Act (Unit {0})
delete_deny env cfg op namespace service_name = do
  connect env
  delete_resource env "AuthorizationPolicy" namespace (
      build_deny_policy_name service_name (trim_space (payload_string op.payload "ruleName"))
        op.resource)
  cleanup_jwt_access_resources env namespace service_name op.resource
  cleanup_edge_resources env namespace service_name op.resource cfg

unfoldable pub delete_rule :
    Surroundings → Config → OperationPayload → String → String → Act (Unit {0})
delete_rule env cfg op namespace service_name =
    if to_lower (trim_space (payload_string op.payload "action")) == "deny"
    then delete_deny env cfg op namespace service_name
    else remove_routes env cfg namespace service_name op.resource

unfoldable pub handle_rule_delete : Surroundings → Config → OperationPayload → Act (Unit {0})
handle_rule_delete env cfg op log =
    let environment = or_prod (payload_string op.payload "environment") in
    let service_id = trim_space (payload_string op.payload "serviceId") in
    let service_name =
      or_default (to_kube_name (named_service env log op.payload)) (to_kube_name service_id) in
    let namespace = resolve_app_namespace cfg.namespace_overrides environment in
    if op.resource == ""
    then (err (new_error "rule id missing"), log)
    else if service_name == ""
    then (err (new_error "service name invalid"), log)
    else unless_blocked "rule delete blocked: " (validate_app_namespace namespace)
        (delete_rule env cfg op namespace service_name) log
