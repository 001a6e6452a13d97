-- ===== src/Rules/Handle/Removed.antt =====
-- The delete of a rule after its deploy.
use releasea_worker.Prelude.{
  String, false, Option, none, some, List, [], ◌∷◌, ◌==◌, ◌≡◌, refl, ap, ◌∙◌, All, any,
  if◌then◌else◌, trim_space, to_lower, arith, inl, inr, Bool-cases,
}
use releasea_worker.Models.Payload.{Value, Payload, payload_string}
use releasea_worker.Models.Failure.{Error, Result, ok, err}
use releasea_worker.Models.Operation.{Config, OperationPayload}
use releasea_worker.Models.Service.{ServicePayload}
use releasea_worker.Models.Rule.{RulePayload}
use releasea_worker.Rules.Names.{denies}
use releasea_worker.Rules.Cluster.{
  ResourceId, delete, Log, Surroundings, Act, ◌>>◌, perform, same_id,
}
use releasea_worker.Rules.Cluster.State.{
  State, put, namespace_id, after, Does, Does-bind, Does-delete,
}
use releasea_worker.Rules.Apply.{cleanup_edge_resources, cleanup_jwt_access_resources}
use releasea_worker.Rules.Handle.{connect, deploy_rule, delete_rule}
use releasea_worker.Rules.Handle.Spares.{route_id, deny_id, access_ids, global_filter_id, IsSpared}
use releasea_worker.Rules.Handle.Calm.{rule_namespace, rule_service_name, deploy_rule-Calm}

-- The cluster without the resources of a list.
abbrev clear_all : List ResourceId → State → State
clear_all [] state = state
clear_all (id ∷ ids) state = clear_all ids (put id none state)

clear_all_lem :
    (ids : List ResourceId) (state : State) (x : ResourceId)
    → clear_all ids state x ≡ (if any (same_id x) ids then none else state x)
clear_all_lem [] state x = refl
clear_all_lem (id ∷ ids) state x =
    clear_all_lem ids (put id none state) x ∙ (elim (Bool-cases (same_id x id)) [
      | inl same ↦ elim (Bool-cases (any (same_id x) ids)) [
        | inl e ↦ rw (same, e)
        | inr e ↦ rw (same, e)
      ]
      | inr other ↦ elim (Bool-cases (any (same_id x) ids)) [
        | inl e ↦ rw (other, e)
        | inr e ↦ rw (other, e)
      ]
    ])

none_of :
    (ids : List ResourceId) (x : ResourceId)
    → any (same_id x) ids ≡ false
    → All (λ i. same_id x i ≡ false) ids
none_of [] x h = tt
none_of (id ∷ ids) x h = elim (Bool-cases (same_id x id)) [
  | inl same ↦ absurd (ground (arith, same, h))
  | inr other ↦ (other, none_of ids x (ground (arith, other, h)))
]

module _ (torn : Log → Option Payload) (start : State) (env : Surroundings) where
  Does-connect : Does torn start (connect env) (λ state. state)
  Does-connect = record { result = λ log done. go log env.client }
    where
      go :
          (log : Log) (c : Option Error)
          → after torn
              (elim c as (λ o. Result (Unit {0}) × Log) [
                | none ↦ (ok tt, log)
                | some e ↦ (err e, log)
              ]).1
              start
            ≡ after torn log start
      go log none = refl
      go log (some e) = refl

  then_delete :
      {k : Act (Unit {0})} {g : State → State} (id : ResourceId)
      → Does torn start k g
      → Does torn start (perform env (delete id) >> k) (λ state. g (put id none state))
  then_delete id h = Does-bind torn start (Does-delete torn start env id) h

  module _ (cfg : Config) (namespace service_name rule_name rule_id : String) where
    abbrev accesses : List ResourceId
    accesses = access_ids cfg namespace service_name rule_name rule_id

    Does-cleanup :
        Does torn start
          (cleanup_jwt_access_resources env namespace service_name rule_id
            >> cleanup_edge_resources env namespace service_name rule_id cfg)
          (clear_all accesses)
    unfolding cleanup_jwt_access_resources cleanup_edge_resources
    Does-cleanup = Does-bind torn start (then_delete _ (Does-delete torn start env _)) (
        then_delete _ (
          then_delete _
            (then_delete _ (then_delete _ (then_delete _ (Does-delete torn start env _))))))

-- The resources that a deploy of the rule applies, but for the global filter.
abbrev pub footprint : Config → RulePayload → ServicePayload → List ResourceId
footprint cfg rule service =
    let namespace = rule_namespace cfg rule in
    let name = rule_service_name service in
    (if denies rule
      then deny_id cfg namespace name rule.name rule.id
      else route_id cfg namespace name rule.name rule.id)
    ∷ access_ids cfg namespace name rule.name rule.id

-- No workload, not the namespace itself, which the deploy creates or labels, not the global filter, and not the resource of the rule's other kind, which the deploy
-- deletes.
pub record IsRemovable (cfg : Config) (rule : RulePayload) (service : ServicePayload)
    (x : ResourceId) : Type 0 where
  pub other :
      same_id x (
        if denies rule
        then route_id cfg (rule_namespace cfg rule) (rule_service_name service) rule.name rule.id
        else deny_id cfg (rule_namespace cfg rule) (rule_service_name service) rule.name rule.id)
      ≡ false
  pub filter :
      same_id x (
        global_filter_id cfg
          (rule_namespace cfg rule)
          (rule_service_name service)
          rule.name
          rule.id)
      ≡ false
  pub space : same_id x (namespace_id (rule_namespace cfg rule)) ≡ false
  pub deployment : (x.kind == "Deployment") ≡ false
  pub workload_service : (x.kind == "Service") ≡ false

module _ (torn : Log → Option Payload) (start : State) (cfg : Config) (rule : RulePayload)
    (service : ServicePayload) where
  abbrev namespace : String
  namespace = rule_namespace cfg rule

  abbrev service_name : String
  service_name = rule_service_name service

  removable-IsSpared :
      (x : ResourceId)
      → IsRemovable cfg rule service x
      → any (same_id x) (footprint cfg rule service) ≡ false
      → IsSpared cfg namespace service_name rule.name rule.id x
  removable-IsSpared x r h =
      let (first, rest) = none_of (footprint cfg rule service) x h in
      elim (Bool-cases (denies rule)) [
        | inl d ↦ record {
          route = rw d at r.other;
          deny = rw d at first;
          access = rest;
          filter = r.filter;
          space = r.space;
          deployment = r.deployment;
          workload_service = r.workload_service;
        }
        | inr d ↦ record {
          route = rw d at first;
          deny = rw d at r.other;
          access = rest;
          filter = r.filter;
          space = r.space;
          deployment = r.deployment;
          workload_service = r.workload_service;
        }
      ]

  Does-delete_rule :
      (env : Surroundings) (op : OperationPayload)
      → op.resource ≡ rule.id
      → trim_space (payload_string op.payload "ruleName") ≡ rule.name
      → (to_lower (trim_space (payload_string op.payload "action")) == "deny") ≡ denies rule
      → Does torn start
          (delete_rule env cfg op namespace service_name)
          (clear_all (footprint cfg rule service))
  unfolding delete_rule
  Does-delete_rule env op same named action = elim (Bool-cases (denies rule)) [
    | inl d ↦
        rw (action, d, same, named)
          (Does-bind torn start (Does-connect torn start env) (
            then_delete torn start env (deny_id cfg namespace service_name rule.name rule.id)
              (Does-cleanup torn start env cfg namespace service_name rule.name rule.id)))
    | inr d ↦
        rw (action, d, same)
          (Does-bind torn start (Does-connect torn start env) (
            then_delete torn start env (route_id cfg namespace service_name rule.name rule.id)
              (Does-cleanup torn start env cfg namespace service_name rule.name rule.id)))
  ]

  -- Once the delete of a rule has succeeded, whatever came of the deploy before it, every resource that
  -- the deploy applies for the rule is gone, and the other resources are as they were before the
  -- deploy, but for the namespace itself, which the deploy creates or labels, workloads and their
  -- services, the global filter and the policy or routes of the rule's other kind. The delete has to
  -- name the rule, its kind and its service as the deploy found them.
  pub delete_rule-deploy_rule :
      (sprint : Value → String) (env env' : Surroundings) (payload : Payload)
      (op : OperationPayload) (log : Log) (x : ResourceId)
      → op.resource ≡ rule.id
      → trim_space (payload_string op.payload "ruleName") ≡ rule.name
      → (to_lower (trim_space (payload_string op.payload "action")) == "deny") ≡ denies rule
      → IsRemovable cfg rule service x
      → (delete_rule env' cfg op namespace service_name
          (deploy_rule sprint env cfg payload rule service log).1).0
        ≡ ok tt
      → let deployed = (deploy_rule sprint env cfg payload rule service log).1 in
        after torn (delete_rule env' cfg op namespace service_name deployed).1 start x
        ≡ (if any (same_id x) (footprint cfg rule service) then none else after torn log start x)
  delete_rule-deploy_rule sprint env env' payload op log x same named action removable done =
      let deployed = (deploy_rule sprint env cfg payload rule service log).1 in
      let ids = footprint cfg rule service in
      let cleared =
        ap (λ (state : State). state x)
          ((Does-delete_rule env' op same named action).result deployed done)
        ∙ clear_all_lem ids (after torn deployed start) x in
      elim (Bool-cases (any (same_id x) ids)) [
        | inl mine ↦ rw mine (rw mine at cleared)
        | inr other ↦ rw other (
            (rw other at cleared)
            ∙ (deploy_rule-Calm torn start sprint env cfg payload rule service).same log x
                (removable-IsSpared x removable other))
      ]
