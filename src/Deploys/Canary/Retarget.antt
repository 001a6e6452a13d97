-- ===== src/Deploys/Canary/Retarget.antt =====
-- deploys_strategy_retarget_resources.go and the other changes that make the manifests of the stable
-- workload from those of the canary: `setRollingStrategy` of deploys_strategy_apply_policy.go,
-- `stampDeploymentPromotion` of deploys_strategy_canary_promote.go, and `CleanResourceForReapply` of
-- integrations/kubernetes/resources.go.
use releasea_worker.Prelude.{
  String, Bool, true, false, Option, none, some, [], ◌∷◌, ◌==◌, is_empty, if◌then◌else◌, lookup,
  insert, remove, trim_space, to_lower,
}
use releasea_worker.Prelude.Int.{ℤ, pos, ltb_ℤ, leb_ℤ}
use releasea_worker.Models.Payload.{Value, num, str, arr, obj, item, Payload, fields, object}
use releasea_worker.Models.Service.{ServicePayload}
use releasea_worker.Deploys.Hints.{map_value, string_value}

-- `m := MapValue(source[key])`, a change of `m`, and `source[key] = m`.
abbrev pub modify : String → (Payload → Payload) → Payload → Payload
modify key f source = insert key (object (f (map_value (lookup key source)))) source

abbrev pub set_text : String → String → Payload → Payload
set_text key text = insert key (str text)

-- `delete(typed, …)`, where the key holds a map.
abbrev in_map : String → (Payload → Payload) → Option Value → Payload → Payload
in_map key f (some (obj fs)) source = insert key (object (f (fields fs))) source
in_map key f _ source = source

abbrev pub modify_map : String → (Payload → Payload) → Payload → Payload
modify_map key f source = in_map key f (lookup key source) source

abbrev named_first : String → Value → Payload → Payload
named_first label (arr (item (obj fs) rest)) spec =
    insert "containers" (arr (item (object (set_text "name" label (fields fs))) rest)) spec
named_first label _ spec = spec

abbrev name_first : String → Option Value → Payload → Payload
name_first label none spec = spec
name_first label (some v) spec = named_first label v spec

abbrev label_template : String → Payload → Payload
label_template label template =
    let labelled = modify "metadata" (modify "labels" (set_text "app" label)) template in
    modify "spec" (λ spec. name_first label (lookup "containers" spec) spec) labelled

abbrev rename : String → String → Payload → Payload
rename name label resource =
    modify "metadata" (λ meta. modify "labels" (set_text "app" label) (set_text "name" name meta))
      resource

unfoldable pub retarget_deployment : Payload → String → String → ℤ → Payload
retarget_deployment resource name label replicas =
    let count = if leb_ℤ replicas (pos 0) then pos 1 else replicas in
    modify "spec"
      (λ spec. modify "template" (label_template label) (
        modify "selector" (modify "matchLabels" (set_text "app" label))
          (insert "replicas" (num count) spec)))
      (rename name label resource)

unfoldable pub retarget_service : Payload → String → String → Payload
retarget_service resource name label =
    modify "spec" (modify "selector" (set_text "app" label)) (rename name label resource)

unfoldable pub set_rolling_strategy : Payload → Value → Value → Payload
set_rolling_strategy resource max_surge max_unavailable =
    modify "spec"
      (λ spec. insert "minReadySeconds" (num (pos 5)) (
        insert "strategy"
          (object (
            ("type", str "RollingUpdate")
            ∷ (
              "rollingUpdate",
              object (("maxSurge", max_surge) ∷ ("maxUnavailable", max_unavailable) ∷ []),
            )
            ∷ []))
          spec))
      resource

abbrev pub set_zero_downtime_rolling_strategy : Payload → Payload
set_zero_downtime_rolling_strategy resource =
    set_rolling_strategy resource (str "25%") (num (pos 0))

-- `now` is the time as RFC 3339 writes it.
unfoldable pub stamp_deployment_promotion : Payload → String → Payload
stamp_deployment_promotion resource now =
    modify "spec"
      (modify "template"
        (modify "metadata" (modify "annotations" (set_text "releasea.promoted-at" now))))
      resource

abbrev clean_annotations : Option Value → Payload → Payload
clean_annotations (some (obj fs)) meta =
    let cleaned =
      remove "deployment.kubernetes.io/revision"
        (remove "kubectl.kubernetes.io/last-applied-configuration" (fields fs)) in
    if is_empty cleaned
    then remove "annotations" meta
    else insert "annotations" (object cleaned) meta
clean_annotations _ meta = meta

abbrev clean_metadata : Payload → Payload
clean_metadata meta =
    let cleaned = remove "managedFields" (
      remove "generation"
        (remove "resourceVersion" (remove "creationTimestamp" (remove "uid" meta)))) in
    clean_annotations (lookup "annotations" cleaned) cleaned

abbrev clean_service_spec : Payload → Payload
clean_service_spec spec =
    remove "ipFamilyPolicy" (remove "ipFamilies" (remove "clusterIPs" (remove "clusterIP" spec)))

abbrev is_map : Option Value → Bool
is_map (some (obj fs)) = true
is_map _ = false

unfoldable pub clean_resource_for_reapply : (Value → String) → Payload → Payload
clean_resource_for_reapply sprint resource =
    let stateless = remove "status" resource in
    let cleaned = modify_map "metadata" clean_metadata stateless in
    if is_map (lookup "metadata" stateless)
    then (if to_lower (trim_space (string_value sprint cleaned "kind")) == "service"
        then modify_map "spec" clean_service_spec cleaned
        else cleaned)
    else stateless

unfoldable pub resolve_desired_replicas_for_promote : ServicePayload → ℤ
resolve_desired_replicas_for_promote service =
    let least = if ltb_ℤ service.min_replicas (pos 1) then pos 1 else service.min_replicas in
    let wanted = if ltb_ℤ (pos 0) service.replicas then service.replicas else least in
    if ltb_ℤ (pos 0) service.max_replicas
    then (if ltb_ℤ service.max_replicas wanted then service.max_replicas else wanted)
    else wanted
