-- ===== src/Rules/Examples.antt =====
-- A rule for a shop, and the theorems on rules applied to it.
use releasea_worker.Prelude.{
  String, List, some, true, false, none, [], ◌∷◌, ◌++◌, map, ◌≡◌, ◌≢◌, refl, ◌==◌, All, In, lookup,
  arith, eq_iff, any, if◌then◌else◌, trim_space, to_lower, equal_fold,
}
use releasea_worker.Prelude.Int.{pos, at_least, at_most}
use releasea_worker.Models.Payload.{Value, num, object, Payload, payload_string, payload_int}
use releasea_worker.Models.Failure.{ok}
use releasea_worker.Shared.KubeName.Fixed.{IsLabel}
use releasea_worker.Rules.Names
use releasea_worker.Rules.Names.Labels.{resource_names-IsLabel}
use releasea_worker.Rules.Policy.{api_key_constraint, header_or_default, objects}
use releasea_worker.Rules.Routes.{build_strategy_destinations, build_rule_virtual_service}
use releasea_worker.Rules.Routes.Gated.{
  IsGuarded, key_list, Refuses, build_rule_virtual_service-IsGuarded,
}
use releasea_worker.Shared.Unique.{unique_strings}
use releasea_worker.Deploys.Hints.{string_value}
use releasea_worker.Rules.Edge.{
  build_gateway_authorization_policy, build_gateway_deny_rules, build_edge_destination_rule,
  build_edge_peer_authentication, build_edge_network_policy,
}
use releasea_worker.Rules.Filters.{build_route_edge_filter}
use releasea_worker.Rules.Apply.{
  gateway_jwt, reconcile_edge_resources, cleanup_edge_resources, cleanup_jwt_access_resources,
}
use releasea_worker.Rules.Apply.Settled.{reconcile_edge_resources_settles}
use releasea_worker.Rules.Guard.{
  resolve_deploy_strategy_type, workload_target_ready, normalize_for_availability,
  collect_destination_hosts, all_hosts, host_matches_workload_alias, is_workload_alias_referenced,
  cleanup_candidates_for_strategy, canonical_service_target, delete_unused,
  cleanup_unused_strategy_workloads,
}
use releasea_worker.Shared.Strategy.{normalize_type, resolve_blue_green_slots}
use releasea_worker.Rules.Handle.{apply_rule_deploy_strategy_override, deploy_rule, delete_rule}
use releasea_worker.Rules.Handle.Calm.{rule_namespace, rule_service_name}
use releasea_worker.Rules.Handle.Removed.{footprint, IsRemovable, delete_rule-deploy_rule}
use releasea_worker.Rules.Guard.Ready.{IsLed, NothingLeft}
use releasea_worker.Rules.Handle.Led.{apply_rule_deploy_strategy_override-AllLed}
use releasea_worker.Rules.Guard.Kept.{IsDue, cleanup_unused_strategy_workloads-IsDue}
use releasea_worker.Rules.Cluster.{
  delete, CallEntry, Log, Surroundings, perform, resource_id, same_id,
}
use releasea_worker.Rules.Cluster.State.{after}
use releasea_worker.Rules.Shop.{
  rule, service, willing, cfg, empty_cluster, torn, gateways, elsewhere, rule_delete,
}

suffix-IsLabel : IsLabel "gw"
suffix-IsLabel = record {
  name = record { chars = ground arith; starts = refl; ends = refl };
  full = λ e. ground (arith, eq_iff "gw" "", e);
  short = omega arith;
}

resource_names-IsLabel_example :
    IsLabel (Names.build_security_resource_name "Shop" "rule-1" "gw")
    × IsLabel (Names.build_deny_policy_name "Shop" "" "rule-1")
    × IsLabel (Names.edge_route_name "rule-1")
resource_names-IsLabel_example = resource_names-IsLabel "Shop" "" "rule-1" "gw" suffix-IsLabel

open_rule : Names.denies rule ≡ false
unfolding Names.rule_action trim_space to_lower
open_rule = refl

by_key : Names.rule_auth_mode rule ≡ "apikey"
unfolding Names.rule_auth_mode trim_space to_lower
by_key = refl

http_protocol : to_lower (trim_space rule.protocol) ≢ "tcp"
unfolding trim_space to_lower
http_protocol e = ground (arith, eq_iff (to_lower (trim_space rule.protocol)) "tcp", e)

build_rule_virtual_service-IsGuarded_example :
    (spec : Payload) × (routes : List Payload) × (lookup "spec"
        (build_rule_virtual_service rule service "shop" "releasea-apps-prod" cfg gateways)
      ≡ some (object spec))
    × (lookup "tcp" spec ≡ none)
    × (lookup "http" spec ≡ some (objects routes))
    × All (IsGuarded (header_or_default rule) (key_list rule)) routes
    × ((r : Payload) × In r routes × Refuses r)
build_rule_virtual_service-IsGuarded_example =
    build_rule_virtual_service-IsGuarded rule open_rule by_key service "shop" "releasea-apps-prod"
      cfg gateways http_protocol

-- Two blue workloads that are in use stay, the others go.
cleanup_run :
    map
      (λ (e : CallEntry). e.call)
      (cleanup_unused_strategy_workloads
        (λ v. "")
        willing
        "releasea-apps-production"
        "shop"
        "canary"
        []).1
    ≡ delete (resource_id "Service" "releasea-apps-production" "shop-green")
      ∷ delete (resource_id "Deployment" "releasea-apps-production" "shop-green")
      ∷ []
unfolding cleanup_unused_strategy_workloads cleanup_candidates_for_strategy canonical_service_target
    delete_unused perform is_workload_alias_referenced host_matches_workload_alias all_hosts
    collect_destination_hosts string_value trim_space to_lower equal_fold lookup
cleanup_run = refl

cleanup_unused_strategy_workloads-IsDue_example :
    (added : Log) × ((cleanup_unused_strategy_workloads
        (λ v. "")
        willing
        "releasea-apps-production"
        "shop"
        "canary"
        []).1
      ≡ added ++ [])
    × All (IsDue (λ v. "") willing "releasea-apps-production" "shop" "canary" []) added
cleanup_unused_strategy_workloads-IsDue_example =
    cleanup_unused_strategy_workloads-IsDue (λ v. "") willing "releasea-apps-production" "shop"
      "canary" []

apply_rule_deploy_strategy_override-AllLed_example :
    All
      (IsLed willing [] "releasea-apps-production" "shop"
        (pos 80)
        (NothingLeft willing [] "releasea-apps-production" "shop" (pos 80) service))
      (build_strategy_destinations
        (apply_rule_deploy_strategy_override
          (normalize_for_availability willing [] "releasea-apps-production" "shop" service)
          [])
        "shop"
        "releasea-apps-production"
        (pos 80))
unfolding workload_target_ready equal_fold lookup
apply_rule_deploy_strategy_override-AllLed_example =
    apply_rule_deploy_strategy_override-AllLed willing [] "releasea-apps-production" "shop" (pos 80)
      service [] (λ name. (true, refl)) (true, refl) refl refl

reconcile_runs :
    (reconcile_edge_resources willing "releasea-apps-production" "shop" rule service cfg gateways
      []).0
    ≡ ok tt
unfolding reconcile_edge_resources perform build_gateway_authorization_policy
    build_gateway_deny_rules build_route_edge_filter build_edge_destination_rule
    build_edge_peer_authentication build_edge_network_policy Names.rule_action Names.rule_auth_mode
    api_key_constraint unique_strings trim_space to_lower
reconcile_runs = refl

reconcile_edge_resources_settles_example :
    let final =
      after torn
        (reconcile_edge_resources willing "releasea-apps-production" "shop" rule service cfg
          gateways []).1
        empty_cluster in
    let gateway = Names.gateway_namespace cfg in
    (final
        (resource_id "AuthorizationPolicy" gateway (Names.gateway_edge_policy_name "shop" "rule-1"))
      ≡ build_gateway_authorization_policy rule service "shop" gateway
          (Names.resolve_rule_hosts rule.hosts gateways "shop" "releasea-apps-production" cfg))
    × (final (resource_id "RequestAuthentication" gateway (Names.gateway_jwt_name "shop" "rule-1"))
        ≡ gateway_jwt rule service "shop" gateway)
    × (final (resource_id "EnvoyFilter" gateway (Names.edge_rate_limit_name "shop" "rule-1"))
        ≡ build_route_edge_filter rule service "shop" gateway)
    × (final (
          resource_id "DestinationRule" "releasea-apps-production"
            (Names.edge_destination_rule_name "shop" "rule-1"))
        ≡ build_edge_destination_rule rule service "shop" "releasea-apps-production")
    × (final (
          resource_id "PeerAuthentication" "releasea-apps-production"
            (Names.edge_peer_authentication_name "shop" "rule-1"))
        ≡ build_edge_peer_authentication rule service "shop" "releasea-apps-production")
    × (final (
          resource_id "NetworkPolicy" "releasea-apps-production"
            (Names.edge_network_policy_name "shop" "rule-1"))
        ≡ build_edge_network_policy rule service "shop" "releasea-apps-production" gateway)
    × (final elsewhere ≡ none)
unfolding after
reconcile_edge_resources_settles_example =
    reconcile_edge_resources_settles torn empty_cluster willing "releasea-apps-production" "shop"
      rule service cfg gateways [] elsewhere reconcile_runs
      (refl, refl, refl, refl, refl, refl, refl)

abbrev sprint : Value → String
sprint v = ""

abbrev deploy_log : Log
deploy_log = (deploy_rule sprint willing cfg [] rule service []).1

same_name : trim_space (payload_string rule_delete.payload "ruleName") ≡ rule.name
unfolding payload_string lookup trim_space
same_name = refl

same_action :
    (to_lower (trim_space (payload_string rule_delete.payload "action")) == "deny")
    ≡ Names.denies rule
unfolding payload_string lookup trim_space to_lower Names.rule_action
same_action = refl

elsewhere-IsRemovable : IsRemovable cfg rule service elsewhere
unfolding Names.rule_action trim_space to_lower
elsewhere-IsRemovable = record {
  other = refl;
  filter = refl;
  space = refl;
  deployment = refl;
  workload_service = refl;
}

delete_runs :
    (delete_rule willing cfg rule_delete
      (rule_namespace cfg rule)
      (rule_service_name service)
      deploy_log).0
    ≡ ok tt
unfolding delete_rule perform payload_string lookup trim_space to_lower cleanup_jwt_access_resources
    cleanup_edge_resources
delete_runs = refl

delete_rule-deploy_rule_example :
    after torn
      (delete_rule willing cfg rule_delete
        (rule_namespace cfg rule)
        (rule_service_name service)
        deploy_log).1
      empty_cluster
      elsewhere
    ≡ (if any (same_id elsewhere) (footprint cfg rule service)
        then none
        else after torn [] empty_cluster elsewhere)
delete_rule-deploy_rule_example =
    delete_rule-deploy_rule torn empty_cluster cfg rule service sprint willing willing []
      rule_delete [] elsewhere refl same_name same_action elsewhere-IsRemovable delete_runs

-- The guard routes all to the stable workload, since the canary is not there; the operation's override then
-- gives the canary its share again.
abbrev no_canary : Surroundings
no_canary = record willing { exists = λ log id. ok (id.name == "shop") }

override_undoes_guard :
    ((normalize_for_availability no_canary [] "releasea-apps-production" "shop"
        service).deployment_strategy.canary_percent
      ≡ pos 0)
    × ((apply_rule_deploy_strategy_override
          (normalize_for_availability no_canary [] "releasea-apps-production" "shop" service)
          (("canaryPercentOverride", num (pos 30)) ∷ [])).deployment_strategy.canary_percent
        ≡ pos 30)
unfolding normalize_for_availability workload_target_ready resolve_deploy_strategy_type
    normalize_type resolve_blue_green_slots apply_rule_deploy_strategy_override payload_int at_least
    at_most trim_space to_lower equal_fold lookup
override_undoes_guard = (refl, refl)
