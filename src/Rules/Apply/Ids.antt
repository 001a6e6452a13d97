-- ===== src/Rules/Apply/Ids.antt =====
-- Where the manifests of a rule are stored.
use releasea_worker.Prelude.{
  String, Bool, true, false, not, ◌&&◌, none, some, List, ◌==◌, ◌≡◌, refl, if_split, if◌then◌else◌,
  is_empty,
}
use releasea_worker.Models.Payload.{Payload}
use releasea_worker.Models.Service.{ServicePayload}
use releasea_worker.Models.Rule.{RulePayload}
use releasea_worker.Rules.Names.{
  denies, rule_auth_mode, gateway_edge_policy_name, gateway_jwt_name, edge_rate_limit_name,
  edge_destination_rule_name, edge_peer_authentication_name, edge_network_policy_name,
}
use releasea_worker.Rules.Edge.{
  edge_metadata, build_gateway_deny_rules, build_gateway_authorization_policy,
  build_gateway_jwt_request_authentication, build_edge_destination_rule,
  build_edge_peer_authentication, build_edge_network_policy,
}
use releasea_worker.Rules.Filters.{
  gateway_edge_filter_name, build_global_edge_filter, build_route_edge_filter,
}
use releasea_worker.Rules.Cluster.{ResourceId, resource_id}
use releasea_worker.Rules.Cluster.State.{id_of}
use releasea_worker.Rules.Apply.{gateway_jwt}

if_some :
    (test : Bool) (m : Payload) (i : ResourceId)
    → id_of m ≡ i
    → (r : Payload) → (if test then none else some m) ≡ some r
    → id_of r ≡ i
if_some true m i h r e = cc
if_some false m i h r e = cc

module _ (rule : RulePayload) (service : ServicePayload)
    (service_name namespace gateway : String) where
  pub policy_id :
      (hosts : List String) (r : Payload)
      → build_gateway_authorization_policy rule service service_name gateway hosts ≡ some r
      → id_of r
        ≡ resource_id "AuthorizationPolicy" gateway (gateway_edge_policy_name service_name rule.id)
  unfolding build_gateway_authorization_policy id_of edge_metadata
  policy_id hosts = if_some (is_empty (build_gateway_deny_rules rule hosts)) _ _ refl

  pub jwt_id :
      (r : Payload)
      → gateway_jwt rule service service_name gateway ≡ some r
      → id_of r
        ≡ resource_id "RequestAuthentication" gateway (gateway_jwt_name service_name rule.id)
  unfolding build_gateway_jwt_request_authentication id_of
  jwt_id r e =
      let i : ResourceId =
        resource_id "RequestAuthentication" gateway (gateway_jwt_name service_name rule.id) in
      if_split (λ o. o ≡ some r → id_of r ≡ i) (not (denies rule) && rule_auth_mode rule == "jwt")
        (λ u h. cc) (λ u h. cc) e

  pub filter_id :
      (r : Payload)
      → build_route_edge_filter rule service service_name gateway ≡ some r
      → id_of r ≡ resource_id "EnvoyFilter" gateway (edge_rate_limit_name service_name rule.id)
  unfolding build_route_edge_filter id_of edge_metadata
  filter_id = if_some _ _ _ refl

  pub destination_id :
      (r : Payload)
      → build_edge_destination_rule rule service service_name namespace ≡ some r
      → id_of r
        ≡ resource_id "DestinationRule" namespace (edge_destination_rule_name service_name rule.id)
  unfolding build_edge_destination_rule id_of edge_metadata
  destination_id = if_some _ _ _ refl

  pub peer_id :
      (r : Payload)
      → build_edge_peer_authentication rule service service_name namespace ≡ some r
      → id_of r
        ≡ resource_id "PeerAuthentication" namespace
            (edge_peer_authentication_name service_name rule.id)
  unfolding build_edge_peer_authentication id_of edge_metadata
  peer_id = if_some _ _ _ refl

  pub network_id :
      (r : Payload)
      → build_edge_network_policy rule service service_name namespace gateway ≡ some r
      → id_of r
        ≡ resource_id "NetworkPolicy" namespace (edge_network_policy_name service_name rule.id)
  unfolding build_edge_network_policy id_of edge_metadata
  network_id = if_some _ _ _ refl

pub global_id :
    (gateway : String)
    → id_of (build_global_edge_filter gateway)
      ≡ resource_id "EnvoyFilter" gateway gateway_edge_filter_name
unfolding build_global_edge_filter id_of
global_id gateway = refl
