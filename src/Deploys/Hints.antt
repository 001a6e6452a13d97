-- ===== src/Deploys/Hints.antt =====
-- The deployments and namespaces that an operation's payload names: `PayloadResources` of
-- integrations/operations/api_client.go, shared/value_read_map.go, and the readers of
-- deploys_deploy_readiness_check.go. `sprint` is `fmt.Sprint`. A payload from the API holds its resources
-- as an array of JSON values.
use releasea_worker.Prelude.{
  String, not, ◌&&◌, Option, none, some, List, [], ◌∷◌, ◌==◌, if◌then◌else◌, lookup, trim_space,
  to_lower,
}
use releasea_worker.Models.Failure.{Error, Result, ok, err, new_error}
use releasea_worker.Models.Payload.{
  Value, null, str, arr, obj, Items, no_items, item, Payload, fields,
}
use releasea_worker.Deploys.Readiness.{DeploymentResourceHint}

-- `MapValue`, of a key's value.
abbrev pub map_value : Option Value → Payload
map_value (some (obj fs)) = fields fs
map_value _ = []

-- `StringValue`.
abbrev text_of : (Value → String) → Option Value → String
text_of sprint none = ""
text_of sprint (some null) = ""
text_of sprint (some (str s)) = trim_space s
text_of sprint (some v) = trim_space (sprint v)

unfoldable pub string_value : (Value → String) → Payload → String → String
string_value sprint source key = text_of sprint (lookup key source)

abbrev invalid_resources : Error
invalid_resources = new_error "invalid deploy resources payload"

abbrev with_resource : Payload → Result (List Payload) → Result (List Payload)
with_resource resource (err e) = err e
with_resource resource (ok rest) = ok (resource ∷ rest)

abbrev resources_of : Items → Result (List Payload)
resources_of no_items = ok []
resources_of (item (obj fs) rest) = with_resource (fields fs) (resources_of rest)
resources_of (item _ rest) = err invalid_resources

abbrev resources_in : Option Value → Result (List Payload)
resources_in none = ok []
resources_in (some null) = ok []
resources_in (some (arr items)) = resources_of items
resources_in (some _) = err invalid_resources

unfoldable pub payload_resources : Payload → Result (List Payload)
payload_resources payload = resources_in (lookup "resources" payload)

unfoldable pub collect_hints : (Value → String) → List Payload → List DeploymentResourceHint
collect_hints sprint [] = []
collect_hints sprint (resource ∷ resources) =
    let kind = to_lower (trim_space (string_value sprint resource "kind")) in
    let meta = map_value (lookup "metadata" resource) in
    let name = trim_space (string_value sprint meta "name") in
    let namespace = trim_space (string_value sprint meta "namespace") in
    let rest = collect_hints sprint resources in
    if not (kind == "deployment")
    then rest
    else if name == "" && namespace == ""
    then rest
    else record { name = name; namespace = namespace } ∷ rest

abbrev hints_of : (Value → String) → Result (List Payload) → List DeploymentResourceHint
hints_of sprint (err e) = []
hints_of sprint (ok resources) = collect_hints sprint resources

unfoldable pub extract_deployment_resource_hints :
    (Value → String) → Payload → List DeploymentResourceHint
extract_deployment_resource_hints sprint payload = hints_of sprint (payload_resources payload)

unfoldable pub first_namespace : List DeploymentResourceHint → String → String
first_namespace [] fallback = trim_space fallback
first_namespace (hint ∷ hints) fallback =
    let namespace = trim_space hint.namespace in
    let rest = first_namespace hints fallback in if not (namespace == "") then namespace else rest

unfoldable pub resolve_deploy_namespace_from_payload : (Value → String) → Payload → String → String
resolve_deploy_namespace_from_payload sprint payload fallback =
    first_namespace (extract_deployment_resource_hints sprint payload) fallback
