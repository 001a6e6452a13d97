-- ===== src/Rules/Handle/Calm.antt =====
-- A deploy of a rule keeps all other resources of the cluster as they were, also where it fails.
use releasea_worker.Prelude.{
  String, false, ◌&&◌, ◌||◌, Option, none, some, List, [], ◌∷◌, ◌==◌, ◌≡◌, refl, is_empty, if_keeps,
  trim_space, to_lower,
}
use releasea_worker.Models.Payload.{Value, Payload}
use releasea_worker.Models.Failure.{Result, ok, err}
use releasea_worker.Models.Operation.{Config}
use releasea_worker.Models.Service.{ServicePayload}
use releasea_worker.Models.Rule.{RulePayload}
use releasea_worker.Shared.Namespace.{resolve_app_namespace, validate_app_namespace}
use releasea_worker.Shared.KubeName.{to_kube_name}
use releasea_worker.Rules.Names.{denies, or_default, map_rule_gateways, build_deny_policy_name}
use releasea_worker.Rules.Routes.{build_rule_virtual_service}
use releasea_worker.Rules.Access.{build_deny_authorization_policy}
use releasea_worker.Rules.Cluster.{
  ResourceId, delete, Log, Surroundings, Act, continue, ◌>>=◌, ◌>>◌, perform, resource_id, same_id,
  apply_resource,
}
use releasea_worker.Rules.Cluster.State.{
  State, id_of, after, Spares-bind, Spares-delete, Spares-ensure,
}
use releasea_worker.Rules.Apply.{cleanup_edge_resources, cleanup_jwt_access_resources}
use releasea_worker.Rules.Guard.{
  normalize_for_availability, is_workload_alias_referenced, canonical_service_target, delete_unused,
  cleanup_unused_strategy_workloads, all_hosts, after_hosts, cleanup_candidates_for_strategy,
}
use releasea_worker.Rules.Handle.{
  apply_rule_deploy_strategy_override, read, ignore_error, deploy_deny, deploy_routes, deploy_allow,
  deploy_rule, or_prod, unless_blocked,
}
use releasea_worker.Rules.Handle.Spares.{
  Keeps-apply_at, Keeps-pure, Keeps-raise, Keeps-connect, P, Kept, Keeps-cleanup_jwt,
  Keeps-cleanup_edge, Keeps-reconcile_jwt, Keeps-reconcile_edge,
}

module _ (torn : Log → Option Payload) (start : State) (env : Surroundings) (cfg : Config)
    (namespace service_name : String) (rule : RulePayload) where
  abbrev Spared : ResourceId → Type 0
  Spared = P torn start env cfg namespace service_name rule

  abbrev Calm : Act (Unit {0}) → Type 0
  Calm = Kept torn start env cfg namespace service_name rule

  bind : {m k : Act (Unit {0})} → Calm m → Calm k → Calm (m >> k)
  bind h i = Spares-bind torn start Spared h (λ u. i)

  drop :
      (id : ResourceId)
      → ((x : ResourceId) → Spared x → same_id x id ≡ false)
      → Calm (perform env (delete id))
  drop id h = Spares-delete torn start Spared env id h

  apply_at :
      (r : Payload) (id : ResourceId)
      → id_of r ≡ id
      → ((x : ResourceId) → Spared x → same_id x id ≡ false)
      → Calm (apply_resource env r)
  apply_at r id e h = Keeps-apply_at torn start env Spared r id e h

  cleanup_jwt : Calm (cleanup_jwt_access_resources env namespace service_name rule.id)
  cleanup_jwt = Keeps-cleanup_jwt torn start env cfg namespace service_name rule

  cleanup_edge : Calm (cleanup_edge_resources env namespace service_name rule.id cfg)
  cleanup_edge = Keeps-cleanup_edge torn start env cfg namespace service_name rule

  Calm-deploy_deny :
      (service : ServicePayload) (gateways : List String)
      → Calm (deploy_deny env cfg rule service namespace service_name gateways)
  unfolding deploy_deny build_deny_authorization_policy id_of
  Calm-deploy_deny service gateways = bind (Keeps-connect torn start env Spared) (
      bind (Spares-ensure torn start Spared env namespace (λ x p. p.space)) (
        bind cleanup_jwt (
          if_keeps Calm (is_empty gateways)
            (bind (drop _ (λ x p. p.deny))
              (bind (drop _ (λ x p. p.route)) (bind cleanup_jwt cleanup_edge)))
            (bind
              (apply_at
                (build_deny_authorization_policy rule service service_name namespace
                  (build_deny_policy_name service_name rule.name rule.id))
                _ refl (λ x p. p.deny))
              (bind (drop _ (λ x p. p.route)) (
                Keeps-reconcile_edge torn start env cfg namespace service_name rule service
                  gateways))))))

  Calm-delete_unused :
      (hosts : List String) (canonical : String) (candidates : List String)
      → Calm (delete_unused env namespace hosts canonical candidates)
  unfolding delete_unused
  Calm-delete_unused hosts canonical [] = Keeps-pure torn start env Spared tt
  Calm-delete_unused hosts canonical (c ∷ cs) =
      let rest = Calm-delete_unused hosts canonical cs in
      if_keeps Calm (c == canonical) rest (
        if_keeps Calm (is_workload_alias_referenced hosts c namespace) rest (
          bind
            (bind (drop (resource_id "Deployment" namespace c) (λ x p. rw (p.deployment)))
              (drop (resource_id "Service" namespace c) (λ x p. rw (p.workload_service))))
            rest))

  Calm-after_hosts :
      (sprint : Value → String) (name : String) (candidates : List String)
      (services : Result (List Payload))
      → Calm (after_hosts sprint env namespace name candidates services)
  Calm-after_hosts sprint name candidates (err e) = Keeps-raise torn start env Spared e
  Calm-after_hosts sprint name candidates (ok services) = record {
    same = λ log x p. go log x p (canonical_service_target sprint env log namespace name);
  }
    where
      go :
          (log : Log) (x : ResourceId)
          → Spared x
          → (r : Result String)
          → after torn
              (continue r
                (λ canonical. delete_unused env namespace (all_hosts services) canonical candidates)
                log).1
              start
              x
            ≡ after torn log start x
      go log x p (ok canonical) =
          (Calm-delete_unused (all_hosts services) canonical candidates).same log x p
      go log x p (err e) = refl

  Calm-cleanup_unused :
      (sprint : Value → String) (name strategy : String)
      → Calm (cleanup_unused_strategy_workloads sprint env namespace name strategy)
  unfolding cleanup_unused_strategy_workloads
  Calm-cleanup_unused sprint name strategy = record {
    same = λ log x p.
        if_keeps (λ (r : Result (Unit {0}) × Log). after torn r.1 start x ≡ after torn log start x)
          (trim_space name == ""
            || is_empty (cleanup_candidates_for_strategy (trim_space name) strategy))
          refl
          ((Calm-after_hosts sprint (trim_space name)
              (cleanup_candidates_for_strategy (trim_space name) strategy)
              (env.virtual_services log namespace)).same
            log x p);
  }

  Calm-ignore_error : (m : Act (Unit {0})) → Calm m → Calm (ignore_error m)
  Calm-ignore_error m h = record { same = λ log x p. h.same log x p }

  Calm-deploy_routes :
      (sprint : Value → String) (service : ServicePayload) (gateways : List String)
      → Calm (deploy_routes sprint env cfg rule service namespace service_name gateways)
  unfolding build_rule_virtual_service id_of
  Calm-deploy_routes sprint service gateways =
      bind
        (apply_at (build_rule_virtual_service rule service service_name namespace cfg gateways) _
          refl (λ x p. p.route))
        (bind (drop _ (λ x p. p.deny)) (
          bind (Keeps-reconcile_jwt torn start env cfg namespace service_name rule service) (
            bind
              (Keeps-reconcile_edge torn start env cfg namespace service_name rule service gateways)
              (Calm-ignore_error _ (Calm-cleanup_unused sprint service_name _)))))

  Calm-read :
      {A : Type 0} (f : Log → A) (k : A → Act (Unit {0}))
      → ((a : A) → Calm (k a))
      → Calm (read (λ log. ok (f log)) >>= k)
  Calm-read f k h = record { same = λ log x p. (h (f log)).same log x p }

  Calm-deploy_allow :
      (sprint : Value → String) (service : ServicePayload) (payload : Payload)
      (gateways : List String)
      → Calm (deploy_allow sprint env cfg rule service payload namespace service_name gateways)
  unfolding deploy_allow
  Calm-deploy_allow sprint service payload gateways =
      let start_up = Keeps-connect torn start env Spared in
      if_keeps Calm (is_empty gateways)
        (bind start_up (bind (drop _ (λ x p. p.route)) (bind cleanup_jwt cleanup_edge)))
        (bind start_up (
          bind (Spares-ensure torn start Spared env namespace (λ x p. p.space)) (
            Calm-read {A = ServicePayload}
              (λ log. normalize_for_availability env log namespace service_name service)
              (λ service'.
                deploy_routes sprint env cfg rule
                  (apply_rule_deploy_strategy_override service' payload) namespace service_name
                  gateways)
              (λ service'.
                Calm-deploy_routes sprint (apply_rule_deploy_strategy_override service' payload)
                  gateways))))

  Calm-unless :
      (prefix : String) (blocked : Option String) (m : Act (Unit {0}))
      → Calm m
      → Calm (unless_blocked prefix blocked m)
  Calm-unless prefix none m h = h
  Calm-unless prefix (some message) m h = Keeps-raise torn start env Spared _

-- Where the deploy goes.
abbrev pub rule_namespace : Config → RulePayload → String
rule_namespace cfg rule = resolve_app_namespace cfg.namespace_overrides (or_prod rule.environment)

abbrev pub rule_service_name : ServicePayload → String
rule_service_name service = or_default (to_kube_name service.name) (to_kube_name service.id)

pub deploy_rule-Calm :
    (torn : Log → Option Payload) (start : State) (sprint : Value → String) (env : Surroundings)
    (cfg : Config) (payload : Payload) (rule : RulePayload) (service : ServicePayload)
    → Kept torn start env cfg
        (rule_namespace cfg rule)
        (rule_service_name service)
        rule
        (deploy_rule sprint env cfg payload rule service)
unfolding deploy_rule
deploy_rule-Calm torn start sprint env cfg payload rule service =
    let namespace = rule_namespace cfg rule in
    let service_name = rule_service_name service in
    let gateways = map_rule_gateways rule.gateways cfg in
    if_keeps (Calm torn start env cfg namespace service_name rule)
      (denies rule && to_lower (trim_space rule.protocol) == "tcp")
      (Keeps-raise torn start env (Spared torn start env cfg namespace service_name rule) _)
      (Calm-unless torn start env cfg namespace service_name rule "rule deploy blocked: "
        (validate_app_namespace namespace) _
        (if_keeps (Calm torn start env cfg namespace service_name rule) (service_name == "")
          (Keeps-raise torn start env (Spared torn start env cfg namespace service_name rule) _)
          (if_keeps (Calm torn start env cfg namespace service_name rule) (denies rule)
            (Calm-deploy_deny torn start env cfg namespace service_name rule service gateways)
            (Calm-deploy_allow torn start env cfg namespace service_name rule sprint service payload
              gateways))))
