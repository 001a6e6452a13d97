-- ===== src/Rules/Handle/Spares.antt =====
-- What the deploy of a rule can change in the cluster, whether it succeeds or not.
use releasea_worker.Prelude.{
  String, false, not, ◌||◌, Option, none, some, List, [], ◌∷◌, ◌==◌, ◌≡◌, refl, All, if_keeps,
  trim_space,
}
use releasea_worker.Models.Payload.{Payload}
use releasea_worker.Models.Failure.{Error, Result, ok, err}
use releasea_worker.Models.Operation.{Config}
use releasea_worker.Models.Service.{ServicePayload}
use releasea_worker.Models.Rule.{RulePayload}
use releasea_worker.Rules.Names.{
  rule_auth_mode, gateway_namespace, resolve_rule_hosts, build_deny_policy_name,
  rule_virtual_service_name, gateway_edge_policy_name, gateway_jwt_name, edge_rate_limit_name,
  edge_destination_rule_name, edge_peer_authentication_name, edge_network_policy_name,
  build_jwt_authentication_name, build_jwt_authorization_policy_name,
}
use releasea_worker.Rules.Access.{build_jwt_request_authentication, build_jwt_authorization_policy}
use releasea_worker.Rules.Filters.{gateway_edge_filter_name, build_global_edge_filter}
use releasea_worker.Rules.Cluster.{
  ResourceId, Log, Surroundings, Act, pure, raise, resource_id, same_id, apply_resource,
}
use releasea_worker.Rules.Cluster.State.{
  State, id_of, namespace_id, after, Spares, Spares-bind, Spares-apply, Spares-delete,
}
use releasea_worker.Rules.Apply.{
  settle_resource, settle_filter, reconcile_edge_resources, cleanup_edge_resources,
  cleanup_jwt_access_resources, reconcile_jwt_access_resources,
}
use releasea_worker.Rules.Apply.Ids.{
  policy_id, jwt_id, filter_id, destination_id, peer_id, network_id, global_id,
}
use releasea_worker.Rules.Handle.{connect}

-- The resources that are named after a rule, and the global filter, which all rules share.
module _ (cfg : Config) (namespace service_name rule_name rule_id : String) where
  abbrev gateway : String
  gateway = gateway_namespace cfg

  abbrev pub route_id : ResourceId
  route_id = resource_id "VirtualService" namespace (rule_virtual_service_name service_name rule_id)

  abbrev pub deny_id : ResourceId
  deny_id =
      resource_id "AuthorizationPolicy" namespace
        (build_deny_policy_name service_name rule_name rule_id)

  abbrev pub access_ids : List ResourceId
  access_ids =
      resource_id "RequestAuthentication" namespace
        (build_jwt_authentication_name service_name rule_id)
      ∷ resource_id "AuthorizationPolicy" namespace
          (build_jwt_authorization_policy_name service_name rule_id)
      ∷ resource_id "AuthorizationPolicy" gateway (gateway_edge_policy_name service_name rule_id)
      ∷ resource_id "RequestAuthentication" gateway (gateway_jwt_name service_name rule_id)
      ∷ resource_id "EnvoyFilter" gateway (edge_rate_limit_name service_name rule_id)
      ∷ resource_id "DestinationRule" namespace (edge_destination_rule_name service_name rule_id)
      ∷ resource_id "PeerAuthentication" namespace
          (edge_peer_authentication_name service_name rule_id)
      ∷ resource_id "NetworkPolicy" namespace (edge_network_policy_name service_name rule_id)
      ∷ []

  abbrev pub global_filter_id : ResourceId
  global_filter_id = resource_id "EnvoyFilter" gateway gateway_edge_filter_name

  -- A resource that is none of these, not the namespace itself, and no workload.
  pub record IsSpared (x : ResourceId) : Type 0 where
    pub route : same_id x route_id ≡ false
    pub deny : same_id x deny_id ≡ false
    pub access : All (λ i. same_id x i ≡ false) access_ids
    pub filter : same_id x global_filter_id ≡ false
    pub space : same_id x (namespace_id namespace) ≡ false
    pub deployment : (x.kind == "Deployment") ≡ false
    pub workload_service : (x.kind == "Service") ≡ false

module _ (torn : Log → Option Payload) (start : State) (env : Surroundings)
    (P : ResourceId → Type 0) where
  abbrev pub Keeps : {A : Type 0} → Act A → Type 0
  Keeps m = Spares torn start P m

  pub Keeps-apply_at :
      (r : Payload) (id : ResourceId)
      → id_of r ≡ id
      → ((x : ResourceId) → P x → same_id x id ≡ false)
      → Keeps (apply_resource env r)
  Keeps-apply_at r id e h = Spares-apply torn start P env r (rw e h)

  Keeps-settle :
      (m : Option Payload) (kind namespace name : String)
      → ((r : Payload) → m ≡ some r → id_of r ≡ resource_id kind namespace name)
      → ((x : ResourceId) → P x → same_id x (resource_id kind namespace name) ≡ false)
      → Keeps (settle_resource env m kind namespace name)
  Keeps-settle none kind namespace name e h = Spares-delete torn start P env _ h
  Keeps-settle (some r) kind namespace name e h = Keeps-apply_at r _ (e r refl) h

  Keeps-settle_filter :
      (m : Option Payload) (place name : String)
      → ((r : Payload) → m ≡ some r → id_of r ≡ resource_id "EnvoyFilter" place name)
      → ((x : ResourceId) → P x → same_id x (resource_id "EnvoyFilter" place name) ≡ false)
      → ((x : ResourceId)
          → P x
          → same_id x (resource_id "EnvoyFilter" place gateway_edge_filter_name) ≡ false)
      → Keeps (settle_filter env m place name)
  Keeps-settle_filter none place name e h g = Spares-delete torn start P env _ h
  Keeps-settle_filter (some r) place name e h g =
      Spares-bind torn start P
        (Keeps-apply_at (build_global_edge_filter place) _ (global_id place) g)
        (λ u. Keeps-apply_at r _ (e r refl) h)

  pub Keeps-pure : {A : Type 0} (a : A) → Keeps (pure a)
  Keeps-pure a = record { same = λ log x p. refl }

  pub Keeps-raise : {A : Type 0} (e : Error) → Keeps (raise {A = A} e)
  Keeps-raise e = record { same = λ log x p. refl }

  pub Keeps-connect : Keeps (connect env)
  Keeps-connect = record { same = λ log x p. go log x env.client }
    where
      go :
          (log : Log) (x : ResourceId) (c : Option Error)
          → after torn
              (elim c as (λ o. Result (Unit {0}) × Log) [
                | none ↦ (ok tt, log)
                | some e ↦ (err e, log)
              ]).1
              start
              x
            ≡ after torn log start x
      go log x none = refl
      go log x (some e) = refl

module _ (torn : Log → Option Payload) (start : State) (env : Surroundings) (cfg : Config)
    (namespace service_name : String) (rule : RulePayload) where
  abbrev pub P : ResourceId → Type 0
  P = IsSpared cfg namespace service_name rule.name rule.id

  abbrev pub Kept : Act (Unit {0}) → Type 0
  Kept m = Keeps torn start env P m

  pub Keeps-cleanup_jwt : Kept (cleanup_jwt_access_resources env namespace service_name rule.id)
  unfolding cleanup_jwt_access_resources
  Keeps-cleanup_jwt =
      Spares-bind torn start P (Spares-delete torn start P env _ (λ x p. p.access.0))
        (λ u. Spares-delete torn start P env _ (λ x p. p.access.1.0))

  pub Keeps-cleanup_edge : Kept (cleanup_edge_resources env namespace service_name rule.id cfg)
  unfolding cleanup_edge_resources
  Keeps-cleanup_edge =
      let drop = λ (i : ResourceId) (h : (x : ResourceId) → P x → same_id x i ≡ false).
        Spares-delete torn start P env i h in
      Spares-bind torn start P (drop _ (λ x p. p.access.1.1.0)) (λ u.
        Spares-bind torn start P (drop _ (λ x p. p.access.1.1.1.0)) (λ u.
          Spares-bind torn start P (drop _ (λ x p. p.access.1.1.1.1.0)) (λ u.
            Spares-bind torn start P (drop _ (λ x p. p.access.1.1.1.1.1.0)) (λ u.
              Spares-bind torn start P (drop _ (λ x p. p.access.1.1.1.1.1.1.0))
                (λ u. drop _ (λ x p. p.access.1.1.1.1.1.1.1.0))))))

  pub Keeps-reconcile_jwt :
      (service : ServicePayload)
      → Kept (reconcile_jwt_access_resources env namespace service_name rule service)
  unfolding reconcile_jwt_access_resources build_jwt_request_authentication
      build_jwt_authorization_policy id_of
  Keeps-reconcile_jwt service =
      if_keeps Kept (not (rule_auth_mode rule == "jwt")) Keeps-cleanup_jwt (
        if_keeps Kept
          (trim_space rule.policy.jwt_issuer == "" || trim_space rule.policy.jwks_uri == "")
          (Keeps-raise torn start env P _)
          (Spares-bind torn start P
            (Keeps-apply_at torn start env P
              (build_jwt_request_authentication rule service service_name namespace) _ refl
              (λ x p. p.access.0))
            (λ u.
              Keeps-apply_at torn start env P
                (build_jwt_authorization_policy rule service service_name namespace) _ refl
                (λ x p. p.access.1.0))))

  pub Keeps-reconcile_edge :
      (service : ServicePayload) (gateways : List String)
      → Kept (reconcile_edge_resources env namespace service_name rule service cfg gateways)
  unfolding reconcile_edge_resources
  Keeps-reconcile_edge service gateways =
      let place = gateway_namespace cfg in
      let hosts = resolve_rule_hosts rule.hosts gateways service_name namespace cfg in
      Spares-bind torn start P
        (Keeps-settle torn start env P _ _ _ _
          (policy_id rule service service_name namespace place hosts) (λ x p. p.access.1.1.0))
        (λ u.
          Spares-bind torn start P
            (Keeps-settle torn start env P _ _ _ _
              (jwt_id rule service service_name namespace place) (λ x p. p.access.1.1.1.0))
            (λ u.
              Spares-bind torn start P
                (Keeps-settle_filter torn start env P _ _ _
                  (filter_id rule service service_name namespace place) (λ x p. p.access.1.1.1.1.0)
                  (λ x p. p.filter))
                (λ u.
                  Spares-bind torn start P
                    (Keeps-settle torn start env P _ _ _ _
                      (destination_id rule service service_name namespace place)
                      (λ x p. p.access.1.1.1.1.1.0))
                    (λ u.
                      Spares-bind torn start P
                        (Keeps-settle torn start env P _ _ _ _
                          (peer_id rule service service_name namespace place)
                          (λ x p. p.access.1.1.1.1.1.1.0))
                        (λ u.
                          Keeps-settle torn start env P _ _ _ _
                            (network_id rule service service_name namespace place)
                            (λ x p. p.access.1.1.1.1.1.1.1.0))))))
