-- ===== src/Maintenance/Curator/Reports.antt =====
-- What a report of the curator says of the cluster.
use releasea_worker.Prelude.{
  String, true, Option, none, some, List, [], ◌∷◌, ◌≡◌, refl, ◌≢◌, ◌⊎◌, inl, inr, All, In, ◌==◌,
  if_split, eq_iff,
}
use releasea_worker.Models.Failure.{Error, ok, err}
use releasea_worker.Models.Operation.{OperationPayload, Config, status_succeeded, status_failed}
use releasea_worker.Models.Service.{ServicePayload}
use releasea_worker.Deploys.Readiness.{
  is_workload_readiness_required, resolve_workload_targets_with_hints,
}
use releasea_worker.Models.Payload.{payload_string}
use releasea_worker.Shared.KubeName.{to_kube_name}
use releasea_worker.Shared.Namespace.{resolve_app_namespace}
use releasea_worker.Deploys.Hints.{
  extract_deployment_resource_hints, resolve_deploy_namespace_from_payload,
}
use releasea_worker.Maintenance.Curator.{Curation, op_age_exceeded, first_name}
use releasea_worker.Maintenance.Curator.Settled.{IsUp, IsBroken}

-- The first of the texts that is not empty.
abbrev pub IsFirst : String → List String → Type 0
IsFirst name [] = ⊥
IsFirst name (candidate ∷ candidates) =
    ((candidate ≢ "") × (name ≡ candidate)) ⊎ ((candidate ≡ "") × IsFirst name candidates)

first_name-IsFirst :
    (candidate otherwise : String) (candidates : List String)
    → (otherwise ≢ "" → IsFirst otherwise candidates)
    → first_name candidate otherwise ≢ ""
    → IsFirst (first_name candidate otherwise) (candidate ∷ candidates)
first_name-IsFirst candidate otherwise candidates next =
    if_split (λ name. name ≢ "" → IsFirst name (candidate ∷ candidates)) (candidate == "")
      (λ blank full. inr ((eq_iff candidate "").0 blank, next full))
      (λ given full. inl (full, refl))

module _ (cur : Curation) (cfg : Config) (op : OperationPayload) where
  -- The service of the operation: none where the operation names none or the API does not give it;
  -- otherwise one whose readiness counts.
  abbrev pub IsServiceOf : Option ServicePayload → Type 0
  IsServiceOf none = (op.resource ≡ "") ⊎ ((e : Error) × (cur.service op.resource ≡ err e))
  IsServiceOf (some service) =
      (op.resource ≢ "")
      × (cur.service op.resource ≡ ok service)
      × (is_workload_readiness_required service.kind service.deploy_template_id ≡ true)

  -- The names that the workload can have, the preferred first.
  abbrev pub candidates : Option ServicePayload → List String
  candidates none = to_kube_name op.service_name ∷ to_kube_name op.resource ∷ []
  candidates (some service) =
      to_kube_name op.service_name ∷ to_kube_name service.name ∷ to_kube_name op.resource ∷ []

  -- The workloads that the deploy waits for, or the named one where there are none.
  abbrev pub AreTargets : Option ServicePayload → String → List String → Type 0
  AreTargets none name targets = targets ≡ name ∷ []
  AreTargets (some service) name targets =
      let resolved =
        resolve_workload_targets_with_hints service.kind service.deploy_template_id
          service.deployment_strategy name
          (extract_deployment_resource_hints cur.sprint op.payload) in
      ((resolved ≡ []) × (targets ≡ name ∷ [])) ⊎ ((resolved ≢ []) × (targets ≡ resolved))

  -- The namespace of the payload, or that of its environment.
  abbrev pub namespace_of : String → String
  namespace_of environment =
      resolve_deploy_namespace_from_payload cur.sprint op.payload
        (resolve_app_namespace cfg.namespace_overrides environment)

  -- What the report says of the workloads in the namespace.
  abbrev pub IsSeen : String → List String → String × String → Type 0
  IsSeen namespace targets report =
      ((report.0 ≡ status_succeeded) × All (IsUp (cur.look namespace)) targets)
      ⊎ ((report.0 ≡ status_failed)
          × ((target : String) × In target targets
              × IsBroken (cur.look namespace) (op_age_exceeded cur op) target))

  -- A report and what it rests on.
  abbrev pub IsFounded : String × String → Type 0
  IsFounded report =
      (service : Option ServicePayload) × (name environment : String) × (targets : List String)
      × IsServiceOf service
      × IsFirst name (candidates service)
      × IsFirst environment (payload_string op.payload "environment" ∷ "prod" ∷ [])
      × AreTargets service name targets
      × (targets ≢ [])
      × IsSeen (namespace_of environment) targets report

  -- If there is a report, it is founded.
  record AllFounded (answer : Option (String × String)) : Type 0 where
    founded : (report : String × String) → answer ≡ some report → IsFounded report

  service_name :
      (name : String)
      → first_name (to_kube_name op.service_name) (first_name name (to_kube_name op.resource)) ≢ ""
      → IsFirst
          (first_name (to_kube_name op.service_name) (first_name name (to_kube_name op.resource)))
          (to_kube_name op.service_name ∷ name ∷ to_kube_name op.resource ∷ [])
  service_name name =
      let rest = to_kube_name op.resource ∷ [] in
      first_name-IsFirst (to_kube_name op.service_name) (first_name name (to_kube_name op.resource))
        (name ∷ rest)
        (first_name-IsFirst name (to_kube_name op.resource) rest (λ full. inl (full, refl)))
