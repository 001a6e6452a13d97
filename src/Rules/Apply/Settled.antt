-- ===== src/Rules/Apply/Settled.antt =====
-- What the rules' code leaves in the cluster where it succeeds.
use releasea_worker.Prelude.{
  String, false, Option, none, some, List, ◌==◌, ◌≡◌, refl, sym, ap, ◌∙◌, eq_refl,
}
use releasea_worker.Models.Payload.{Payload}
use releasea_worker.Models.Failure.{ok}
use releasea_worker.Models.Operation.{Config}
use releasea_worker.Models.Service.{ServicePayload}
use releasea_worker.Models.Rule.{RulePayload}
use releasea_worker.Rules.Names.{
  gateway_namespace, resolve_rule_hosts, gateway_edge_policy_name, gateway_jwt_name,
  edge_rate_limit_name, edge_destination_rule_name, edge_peer_authentication_name,
  edge_network_policy_name,
}
use releasea_worker.Rules.Edge.{
  build_gateway_authorization_policy, build_edge_destination_rule, build_edge_peer_authentication,
  build_edge_network_policy,
}
use releasea_worker.Rules.Filters.{
  gateway_edge_filter_name, build_global_edge_filter, build_route_edge_filter,
}
use releasea_worker.Rules.Cluster.{
  ResourceId, Log, Surroundings, resource_id, same_id, apply_resource,
}
use releasea_worker.Rules.Cluster.State.{
  State, id_of, put, after, Does, Does-bind, Does-apply, Does-delete,
}
use releasea_worker.Rules.Apply.{
  settle_resource, settle_filter, gateway_jwt, reconcile_edge_resources,
}
use releasea_worker.Rules.Apply.Ids.{
  policy_id, jwt_id, filter_id, destination_id, peer_id, network_id, global_id,
}

module _ (torn : Log → Option Payload) (start : State) (env : Surroundings) where
  Does-apply_at :
      (r : Payload) (id : ResourceId)
      → id_of r ≡ id
      → Does torn start (apply_resource env r) (put id (some r))
  Does-apply_at r id h = rw (sym h) (Does-apply torn start env r)

  Does-settle :
      (m : Option Payload) (kind namespace name : String)
      → ((r : Payload) → m ≡ some r → id_of r ≡ resource_id kind namespace name)
      → Does torn start
          (settle_resource env m kind namespace name)
          (put (resource_id kind namespace name) m)
  Does-settle none kind namespace name h =
      Does-delete torn start env (resource_id kind namespace name)
  Does-settle (some r) kind namespace name h =
      Does-apply_at r (resource_id kind namespace name) (h r refl)

  -- What the filters change: the global one is set where the rule has one of its own.
  abbrev put_filter : Option Payload → String → String → State → State
  put_filter none gateway name = put (resource_id "EnvoyFilter" gateway name) none
  put_filter (some r) gateway name = λ state.
      put (resource_id "EnvoyFilter" gateway name) (some r) (
        put (resource_id "EnvoyFilter" gateway gateway_edge_filter_name)
          (some (build_global_edge_filter gateway)) state)

  Does-settle_filter :
      (m : Option Payload) (gateway name : String)
      → ((r : Payload) → m ≡ some r → id_of r ≡ resource_id "EnvoyFilter" gateway name)
      → Does torn start (settle_filter env m gateway name) (put_filter m gateway name)
  Does-settle_filter none gateway name h =
      Does-delete torn start env (resource_id "EnvoyFilter" gateway name)
  Does-settle_filter (some r) gateway name h =
      Does-bind torn start
        (Does-apply_at (build_global_edge_filter gateway)
          (resource_id "EnvoyFilter" gateway gateway_edge_filter_name) (global_id gateway))
        (Does-apply_at r (resource_id "EnvoyFilter" gateway name) (h r refl))

  module _ (namespace service_name : String) (rule : RulePayload) (service : ServicePayload)
      (cfg : Config) (gateways : List String) where
    abbrev gateway : String
    gateway = gateway_namespace cfg

    abbrev hosts : List String
    hosts = resolve_rule_hosts rule.hosts gateways service_name namespace cfg

    abbrev at : String → String → (String → String → String) → ResourceId
    at kind place name = resource_id kind place (name service_name rule.id)

    abbrev policy : Option Payload
    policy = build_gateway_authorization_policy rule service service_name gateway hosts

    -- The cluster after the first two steps.
    abbrev with_access : State → State
    with_access state =
        put (at "RequestAuthentication" gateway gateway_jwt_name)
          (gateway_jwt rule service service_name gateway)
          (put (at "AuthorizationPolicy" gateway gateway_edge_policy_name) policy state)

    -- The cluster after all six steps.
    abbrev settled : State → State
    settled state =
        put (at "NetworkPolicy" namespace edge_network_policy_name)
          (build_edge_network_policy rule service service_name namespace gateway)
          (put (at "PeerAuthentication" namespace edge_peer_authentication_name)
            (build_edge_peer_authentication rule service service_name namespace)
            (put (at "DestinationRule" namespace edge_destination_rule_name)
              (build_edge_destination_rule rule service service_name namespace)
              (put_filter (build_route_edge_filter rule service service_name gateway) gateway
                (edge_rate_limit_name service_name rule.id) (with_access state))))

    Does-reconcile :
        Does torn start
          (reconcile_edge_resources env namespace service_name rule service cfg gateways)
          settled
    unfolding reconcile_edge_resources
    Does-reconcile =
        Does-bind torn start
          (Does-settle _ _ _ _ (policy_id rule service service_name namespace gateway hosts))
          (Does-bind torn start
            (Does-settle _ _ _ _ (jwt_id rule service service_name namespace gateway))
            (Does-bind torn start
              (Does-settle_filter _ _ _ (filter_id rule service service_name namespace gateway))
              (Does-bind torn start
                (Does-settle _ _ _ _ (destination_id rule service service_name namespace gateway))
                (Does-bind torn start
                  (Does-settle _ _ _ _ (peer_id rule service service_name namespace gateway))
                  (Does-settle _ _ _ _ (network_id rule service service_name namespace gateway))))))

    put_filter_other :
        (m : Option Payload) (name : String) (state : State) (x : ResourceId)
        → (x.kind == "EnvoyFilter") ≡ false
        → put_filter m gateway name state x ≡ state x
    put_filter_other none name state x h = rw h
    put_filter_other (some r) name state x h = rw h

    put_filter_self :
        (m : Option Payload) (name : String) (state : State)
        → put_filter m gateway name state (resource_id "EnvoyFilter" gateway name) ≡ m
    put_filter_self none name state = rw (eq_refl gateway, eq_refl name)
    put_filter_self (some r) name state = rw (eq_refl gateway, eq_refl name)

    -- A resource of another identity than the six and the global filter.
    abbrev pub IsElsewhere : ResourceId → Type 0
    IsElsewhere x =
        (same_id x (at "AuthorizationPolicy" gateway gateway_edge_policy_name) ≡ false)
        × (same_id x (at "RequestAuthentication" gateway gateway_jwt_name) ≡ false)
        × (same_id x (at "EnvoyFilter" gateway edge_rate_limit_name) ≡ false)
        × (same_id x (resource_id "EnvoyFilter" gateway gateway_edge_filter_name) ≡ false)
        × (same_id x (at "DestinationRule" namespace edge_destination_rule_name) ≡ false)
        × (same_id x (at "PeerAuthentication" namespace edge_peer_authentication_name) ≡ false)
        × (same_id x (at "NetworkPolicy" namespace edge_network_policy_name) ≡ false)

    put_filter_elsewhere :
        (m : Option Payload) (name : String) (state : State) (x : ResourceId)
        → same_id x (resource_id "EnvoyFilter" gateway name) ≡ false
        → same_id x (resource_id "EnvoyFilter" gateway gateway_edge_filter_name) ≡ false
        → put_filter m gateway name state x ≡ state x
    put_filter_elsewhere none name state x h k = rw h
    put_filter_elsewhere (some r) name state x h k = rw (h, k)

    settled_elsewhere : (state : State) (x : ResourceId) → IsElsewhere x → settled state x ≡ state x
    settled_elsewhere state x (a, b, c, d, e, f, g) =
        rw (g, f, e) (put_filter_elsewhere _ _ _ x c d ∙ rw (b, a))

    settled_policy :
        (state : State)
        → settled state (at "AuthorizationPolicy" gateway gateway_edge_policy_name) ≡ policy
    settled_policy state =
        put_filter_other (build_route_edge_filter rule service service_name gateway)
          (edge_rate_limit_name service_name rule.id) (with_access state)
          (at "AuthorizationPolicy" gateway gateway_edge_policy_name) refl
        ∙ rw (eq_refl gateway, eq_refl (gateway_edge_policy_name service_name rule.id))

    settled_jwt :
        (state : State)
        → settled state (at "RequestAuthentication" gateway gateway_jwt_name)
          ≡ gateway_jwt rule service service_name gateway
    settled_jwt state =
        put_filter_other (build_route_edge_filter rule service service_name gateway)
          (edge_rate_limit_name service_name rule.id) (with_access state)
          (at "RequestAuthentication" gateway gateway_jwt_name) refl
        ∙ rw (eq_refl gateway, eq_refl (gateway_jwt_name service_name rule.id))

    settled_destination :
        (state : State)
        → settled state (at "DestinationRule" namespace edge_destination_rule_name)
          ≡ build_edge_destination_rule rule service service_name namespace
    settled_destination state =
        rw (eq_refl namespace, eq_refl (edge_destination_rule_name service_name rule.id))

    settled_peer :
        (state : State)
        → settled state (at "PeerAuthentication" namespace edge_peer_authentication_name)
          ≡ build_edge_peer_authentication rule service service_name namespace
    settled_peer state =
        rw (eq_refl namespace, eq_refl (edge_peer_authentication_name service_name rule.id))

    settled_network :
        (state : State)
        → settled state (at "NetworkPolicy" namespace edge_network_policy_name)
          ≡ build_edge_network_policy rule service service_name namespace gateway
    settled_network state =
        rw (eq_refl namespace, eq_refl (edge_network_policy_name service_name rule.id))

    -- Where the run succeeds, the six resources of the rule at the gateway and in the namespace are
    -- exactly the manifests that the rule asks for, or absent where it asks for none, whatever
    -- was there before; every other resource but the gateway's global filter is as it was.
    pub reconcile_edge_resources_settles :
        (log : Log) (x : ResourceId)
        → (reconcile_edge_resources env namespace service_name rule service cfg gateways log).0
          ≡ ok tt
        → IsElsewhere x
        → let final =
            after torn
              (reconcile_edge_resources env namespace service_name rule service cfg gateways log).1
              start in
          (final (at "AuthorizationPolicy" gateway gateway_edge_policy_name)
            ≡ build_gateway_authorization_policy rule service service_name gateway hosts)
          × (final (at "RequestAuthentication" gateway gateway_jwt_name)
              ≡ gateway_jwt rule service service_name gateway)
          × (final (at "EnvoyFilter" gateway edge_rate_limit_name)
              ≡ build_route_edge_filter rule service service_name gateway)
          × (final (at "DestinationRule" namespace edge_destination_rule_name)
              ≡ build_edge_destination_rule rule service service_name namespace)
          × (final (at "PeerAuthentication" namespace edge_peer_authentication_name)
              ≡ build_edge_peer_authentication rule service service_name namespace)
          × (final (at "NetworkPolicy" namespace edge_network_policy_name)
              ≡ build_edge_network_policy rule service service_name namespace gateway)
          × (final x ≡ after torn log start x)
    reconcile_edge_resources_settles log x done elsewhere =
        let same = Does-reconcile.result log done in
        let seen = λ (i : ResourceId). ap (λ (state : State). state i) same in
        (
          seen _ ∙ settled_policy (after torn log start),
          seen _ ∙ settled_jwt (after torn log start),
          seen _
              ∙ put_filter_self (build_route_edge_filter rule service service_name gateway)
                  (edge_rate_limit_name service_name rule.id) (with_access (after torn log start)),
          seen _ ∙ settled_destination (after torn log start),
          seen _ ∙ settled_peer (after torn log start),
          seen _ ∙ settled_network (after torn log start),
          seen x ∙ settled_elsewhere _ x elsewhere,
        )
