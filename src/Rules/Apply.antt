-- ===== src/Rules/Apply.antt =====
-- rules_edge_apply.go, and the JWT resources of rules_rule_handle.go: bringing the cluster to what a rule asks
-- for.
pub mod Ids
pub mod Settled
use releasea_worker.Prelude.{
  String, Bool, true, false, not, ◌&&◌, ◌||◌, Option, none, some, List, ◌==◌, if◌then◌else◌,
  trim_space,
}
use releasea_worker.Models.Payload.{Payload}
use releasea_worker.Models.Failure.{Error, Result, ok, err, new_error}
use releasea_worker.Models.Operation.{Config}
use releasea_worker.Models.Service.{ServicePayload}
use releasea_worker.Models.Rule.{RulePayload}
use releasea_worker.Rules.Names.{
  denies, rule_auth_mode, gateway_namespace, resolve_rule_hosts, gateway_edge_policy_name,
  gateway_jwt_name, edge_rate_limit_name, edge_destination_rule_name, edge_peer_authentication_name,
  edge_network_policy_name, build_jwt_authentication_name, build_jwt_authorization_policy_name,
}
use releasea_worker.Rules.Access.{build_jwt_request_authentication, build_jwt_authorization_policy}
use releasea_worker.Rules.Edge.{
  build_gateway_authorization_policy, build_gateway_jwt_request_authentication,
  build_edge_destination_rule, build_edge_peer_authentication, build_edge_network_policy,
}
use releasea_worker.Rules.Filters.{build_global_edge_filter, build_route_edge_filter}
use releasea_worker.Rules.Cluster.{
  Surroundings, Act, ◌>>=◌, ◌>>◌, raise, apply_resource, delete_resource,
}

-- Apply a manifest, or delete the resource that it would be.
abbrev pub settle_resource :
    Surroundings → Option Payload → String → String → String → Act (Unit {0})
settle_resource env (some resource) kind namespace name = apply_resource env resource
settle_resource env none kind namespace name = delete_resource env kind namespace name

abbrev pub settle_filter : Surroundings → Option Payload → String → String → Act (Unit {0})
settle_filter env (some filter) gateway name = do
  apply_resource env (build_global_edge_filter gateway)
  apply_resource env filter
settle_filter env none gateway name = delete_resource env "EnvoyFilter" gateway name

abbrev pub gateway_jwt : RulePayload → ServicePayload → String → String → Option Payload
gateway_jwt rule service service_name gateway =
    if not (denies rule) && rule_auth_mode rule == "jwt"
    then some (build_gateway_jwt_request_authentication rule service service_name gateway)
    else none

unfoldable pub reconcile_edge_resources :
    Surroundings
    → String
    → String
    → RulePayload
    → ServicePayload
    → Config
    → List String
    → Act (Unit {0})
reconcile_edge_resources env namespace service_name rule service cfg gateways = do
  let gateway = gateway_namespace cfg
  let hosts = resolve_rule_hosts rule.hosts gateways service_name namespace cfg
  settle_resource env (build_gateway_authorization_policy rule service service_name gateway hosts)
      "AuthorizationPolicy" gateway (gateway_edge_policy_name service_name rule.id)
  settle_resource env (gateway_jwt rule service service_name gateway) "RequestAuthentication"
      gateway (gateway_jwt_name service_name rule.id)
  settle_filter env (build_route_edge_filter rule service service_name gateway) gateway
      (edge_rate_limit_name service_name rule.id)
  settle_resource env (build_edge_destination_rule rule service service_name namespace)
      "DestinationRule" namespace (edge_destination_rule_name service_name rule.id)
  settle_resource env (build_edge_peer_authentication rule service service_name namespace)
      "PeerAuthentication" namespace (edge_peer_authentication_name service_name rule.id)
  settle_resource env (build_edge_network_policy rule service service_name namespace gateway)
      "NetworkPolicy" namespace (edge_network_policy_name service_name rule.id)

unfoldable pub cleanup_edge_resources :
    Surroundings → String → String → String → Config → Act (Unit {0})
cleanup_edge_resources env namespace service_name rule_id cfg = do
  let gateway = gateway_namespace cfg
  delete_resource env "AuthorizationPolicy" gateway (gateway_edge_policy_name service_name rule_id)
  delete_resource env "RequestAuthentication" gateway (gateway_jwt_name service_name rule_id)
  delete_resource env "EnvoyFilter" gateway (edge_rate_limit_name service_name rule_id)
  delete_resource env "DestinationRule" namespace (edge_destination_rule_name service_name rule_id)
  delete_resource env "PeerAuthentication" namespace
      (edge_peer_authentication_name service_name rule_id)
  delete_resource env "NetworkPolicy" namespace (edge_network_policy_name service_name rule_id)

unfoldable pub cleanup_jwt_access_resources :
    Surroundings → String → String → String → Act (Unit {0})
cleanup_jwt_access_resources env namespace service_name rule_id = do
  delete_resource env "RequestAuthentication" namespace
      (build_jwt_authentication_name service_name rule_id)
  delete_resource env "AuthorizationPolicy" namespace
      (build_jwt_authorization_policy_name service_name rule_id)

abbrev pub apply_jwt_access :
    Surroundings → String → String → RulePayload → ServicePayload → Act (Unit {0})
apply_jwt_access env namespace service_name rule service = do
  apply_resource env (build_jwt_request_authentication rule service service_name namespace)
  apply_resource env (build_jwt_authorization_policy rule service service_name namespace)

unfoldable pub reconcile_jwt_access_resources :
    Surroundings → String → String → RulePayload → ServicePayload → Act (Unit {0})
reconcile_jwt_access_resources env namespace service_name rule service =
    if not (rule_auth_mode rule == "jwt")
    then cleanup_jwt_access_resources env namespace service_name rule.id
    else if trim_space rule.policy.jwt_issuer == "" || trim_space rule.policy.jwks_uri == ""
    then raise (new_error "JWT access policy requires issuer and JWKS URL")
    else apply_jwt_access env namespace service_name rule service
